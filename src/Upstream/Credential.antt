-- ===== src/Upstream/Credential.antt =====
-- internal/upstream/credential.go: the ring of credentials behind one adapter. A scan reads atomic
-- flags; here nobody else writes them meanwhile.
pub mod Count
pub mod Fresh
mod Tests
use breakwater.Base.{
  ℕ, zero, suc, ◌+◌, ◌-◌, ◌%◌, ◌^◌, Bool, true, false, not, ◌&&◌, ◌||◌, List, [], ◌∷◌, Option, none,
  some, String, length, ltb, ◌==◌, if◌then◌else◌,
}

pub record CredentialRing : Type 0 where
  pub keys : List String
  pub dead : List Bool
  pub cursor : ℕ

abbrev pub all_alive : List String → List Bool
all_alive [] = []
all_alive (k ∷ ks) = false ∷ all_alive ks

-- `newCredentialRing`.
pub new_credential_ring : List String → CredentialRing
new_credential_ring keys = record { keys = keys; dead = all_alive keys; cursor = 0 }

-- `r.dead[index]`; the scans stay in range.
abbrev pub is_dead : List Bool → ℕ → Bool
is_dead [] i = false
is_dead (d ∷ ds) zero = d
is_dead (d ∷ ds) (suc i) = is_dead ds i

-- `containsIndex`.
abbrev pub contains_index : List ℕ → ℕ → Bool
contains_index [] index = false
contains_index (got ∷ excluded) index = got == index || contains_index excluded index

abbrev pub word : ℕ
word = 2 ^ 64

-- `int(cursor) % n`: a cursor past the signed range is negative, and so is the index that it starts
-- at unless `n` divides it; Go stops on that index.
pub start_of : ℕ → ℕ → Option ℕ
start_of cursor n =
    if ltb cursor (2 ^ 63)
    then some (cursor % n)
    else (if (word - cursor) % n == 0 then some 0 else none)

-- One of the loops of `pick`, with `k` turns to go.
pub scan : (ℕ → Bool) → ℕ → ℕ → ℕ → Option ℕ
scan usable start n zero = none
scan usable start n (suc k) =
    let idx = (start + (n - suc k)) % n in
    let rest = scan usable start n k in if usable idx then some idx else rest

-- What `pick` answers: an index, -1, or a stop on an index out of range.
pub data Picked : Type 0 where
  serves : ℕ → Picked
  nobody : Picked
  stops : Picked

abbrev pub is_alive : List Bool → ℕ → Bool
is_alive dead i = not (is_dead dead i)

abbrev pub is_fresh : List Bool → List ℕ → ℕ → Bool
is_fresh dead excluded i = is_alive dead i && not (contains_index excluded i)

-- The second loop, then -1.
hand_out : CredentialRing → Option ℕ → Option ℕ → CredentialRing × Picked
hand_out r (some idx) any = (record r { cursor = idx + 1 }, serves idx)
hand_out r none (some idx) = (record r { cursor = idx + 1 }, serves idx)
hand_out r none none = (record r { cursor = (r.cursor + 1) % word }, nobody)

pick_from : CredentialRing → List ℕ → Option ℕ → CredentialRing × Picked
unfolding hand_out
pick_from r excluded none = (record r { cursor = (r.cursor + 1) % word }, stops)
pick_from r excluded (some start) =
    let n = length r.keys in
    hand_out r (scan (is_fresh r.dead excluded) start n n) (scan (is_alive r.dead) start n n)

-- `pick`.
pub pick : CredentialRing → List ℕ → CredentialRing × Picked
unfolding pick_from
pick r excluded =
    if length r.keys == 0
    then (r, nobody)
    else pick_from r excluded (start_of r.cursor (length r.keys))

mark : ℕ → List Bool → List Bool
mark i [] = []
mark zero (d ∷ ds) = true ∷ ds
mark (suc i) (d ∷ ds) = d ∷ mark i ds

-- `retire`, of an index that is not negative.
pub retire : ℕ → CredentialRing → CredentialRing × Bool
unfolding mark
retire index r =
    if ltb index (length r.dead)
    then (record r { dead = mark index r.dead }, not (is_dead r.dead index))
    else (r, false)

pub count_alive : List Bool → ℕ
count_alive [] = 0
count_alive (d ∷ ds) = let rest = count_alive ds in if d then rest else suc rest

-- `alive`.
pub alive : CredentialRing → ℕ
unfolding count_alive
alive r = count_alive r.dead

clear : List Bool → List Bool
clear [] = []
clear (d ∷ ds) = false ∷ clear ds

-- `revive`.
pub revive : CredentialRing → CredentialRing
unfolding clear
revive r = record r { dead = clear r.dead }
