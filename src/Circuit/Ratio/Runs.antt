-- ===== src/Circuit/Ratio/Runs.antt =====
-- ratio.go: runs of calls and reports, and when their calls are admitted.
use breakwater.Base.{
  ℕ, ◌+◌, ◌≡◌, refl, Bool, true, false, Bool-cases, inl, inr, List, [], ◌∷◌, ◌++◌, Option, none,
  some, String, str_eq, ltb, ◌||◌, ◌&&◌, if◌then◌else◌, arith,
}
use breakwater.Circuit.Types.{Outcome}
use breakwater.Circuit.Ratio.{
  RatioRegistry, RatioPermission, Draw, ratio_allow, ratio_report, ratio_force_pass,
}

-- A call, or a report, of any upstream.
pub data RatioOp : Type 0 where
  allows : String → Draw → ℕ → RatioOp
  reports : RatioPermission → Outcome → ℕ → RatioOp

unfoldable pub ratio_step : RatioRegistry → RatioOp → RatioRegistry
ratio_step r (allows id d now) = (ratio_allow r id d now).0
ratio_step r (reports p o now) = (ratio_report r p o now).0

unfoldable pub ratio_run : RatioRegistry → List RatioOp → RatioRegistry
ratio_run r [] = r
ratio_run r (op ∷ ops) = ratio_run (ratio_step r op) ops

abbrev pub is_admitted : Option RatioPermission → Bool
is_admitted none = false
is_admitted (some p) = true

unfoldable pub admission : RatioRegistry → String → RatioOp → List ℕ
admission r id (allows j d now) =
    if str_eq j id && is_admitted (ratio_allow r j d now).1 then now ∷ [] else []
admission r id (reports p o now) = []

-- The times at which a call of the upstream is admitted.
unfoldable pub admissions : RatioRegistry → String → List RatioOp → List ℕ
admissions r id [] = []
admissions r id (op ∷ ops) = admission r id op ++ admissions (ratio_step r op) id ops

-- One of the times is less than the forced-pass interval ago.
unfoldable pub is_recent : ℕ → List ℕ → Bool
is_recent now [] = false
is_recent now (t ∷ ts) = ltb now (t + ratio_force_pass) || is_recent now ts

or_right : (a b : Bool) → b ≡ true → (a || b) ≡ true
or_right a b e = ground (arith, e)

pub is_recent_append :
    (now : ℕ) (ts us : List ℕ) → is_recent now us ≡ true → is_recent now (ts ++ us) ≡ true
unfolding is_recent
is_recent_append now [] us h = h
is_recent_append now (t ∷ ts) us h =
    or_right (ltb now (t + ratio_force_pass)) (is_recent now (ts ++ us))
      (is_recent_append now ts us h)

pub is_recent_among :
    (now t : ℕ) (ts us : List ℕ)
    → is_recent now (t ∷ us) ≡ true
    → is_recent now (t ∷ ts ++ us) ≡ true
unfolding is_recent
is_recent_among now t ts us h = elim (Bool-cases (ltb now (t + ratio_force_pass))) [
  | inl e ↦ rw e refl
  | inr e ↦ rw e (is_recent_append now ts us (rw e at h))
]
