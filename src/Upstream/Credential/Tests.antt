-- ===== src/Upstream/Credential/Tests.antt =====
-- A ring of three with a dead credential.
use breakwater.Base.{ℕ, List, ◌+◌, ◌<◌, ◌≡◌, ◌⊎◌, refl, true, false, [], ◌∷◌, length, arith}
use breakwater.Upstream.Credential.{
  CredentialRing, is_dead, contains_index, alive, serves, nobody, pick, pick_from, hand_out,
  start_of, scan,
}
use breakwater.Upstream.Credential.Fresh.{pick-fresh}

abbrev ring : CredentialRing
ring = record { keys = "a" ∷ "b" ∷ "c" ∷ []; dead = false ∷ true ∷ false ∷ []; cursor = 1 }

-- The cursor stands at the dead one, so the one behind it serves.
skips_dead : (pick ring []).1 ≡ serves 2
unfolding pick pick_from hand_out start_of scan
skips_dead = refl

abbrev burned : List ℕ
burned = 2 ∷ []

pick-fresh_example :
    ((alive ring ≡ 0) × ((pick ring burned).1 ≡ nobody))
    ⊎ ((i : ℕ) × ((pick ring burned).1 ≡ serves i)
        × (i < 3)
        × (is_dead ring.dead i ≡ false)
        × ((pick ring burned).0.cursor ≡ i + 1)
        × (length burned < alive ring → contains_index burned i ≡ false))
pick-fresh_example = pick-fresh ring burned refl (omega arith)
