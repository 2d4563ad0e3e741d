-- ===== src/Auth/Limits/Admission.antt =====
-- limits.go: overrides only tighten which models an identity may call.
use breakwater.Base.{
  ◌≡◌, refl, ap, inl, inr, Bool, true, false, not, ◌&&◌, ◌||◌, List, [], ◌∷◌, ◌++◌, Option, none,
  some, String, str_eq, eq_iff, if◌then◌else◌, arith, Bool-cases,
}
use breakwater.Auth.Limits.{
  Tier, LimitOverride, wildcard_model, names_model, in_set, allows_model, common, admitted,
  narrowed, intersect, tighten, merge_override, merge_tier,
}

-- A list names a model by its wildcard or by itself.
names-in_set :
    (xs : List String) (m : String) → names_model xs m ≡ (in_set xs wildcard_model || in_set xs m)
names-in_set [] m = refl
names-in_set (x ∷ xs) m = ground (arith, names-in_set xs m)

names-append :
    (xs ys : List String) (m : String)
    → names_model (xs ++ ys) m ≡ (names_model xs m || names_model ys m)
names-append [] ys m = refl
names-append (x ∷ xs) ys m = ground (arith, names-append xs ys m)

in_set-append :
    (xs ys : List String) (m : String) → in_set (xs ++ ys) m ≡ (in_set xs m || in_set ys m)
in_set-append [] ys m = refl
in_set-append (x ∷ xs) ys m = ground (arith, in_set-append xs ys m)

in_set-common :
    (parent child : List String) (m : String)
    → in_set (common parent child) m ≡ (in_set parent m && in_set child m)
unfolding common
in_set-common [] child m = refl
in_set-common (x ∷ parent) child m = elim (Bool-cases (str_eq x m)) [
  | inl e ↦
      let same : in_set child x ≡ in_set child m = ap (in_set child) ((eq_iff x m).0 e) in
      ground (arith, in_set-common parent child m, e, same)
  | inr e ↦ ground (arith, in_set-common parent child m, e)
]

in_set-admitted :
    (seen child : List String) (m : String)
    → in_set (admitted seen child) m ≡ (in_set child m && not (in_set seen m))
unfolding admitted
in_set-admitted seen [] m = refl
in_set-admitted seen (x ∷ child) m = elim (Bool-cases (str_eq x m)) [
  | inl e ↦
      let same : in_set seen x ≡ in_set seen m = ap (in_set seen) ((eq_iff x m).0 e) in
      ground (arith, in_set-admitted seen child m, in_set-admitted (x ∷ seen) child m, e, same)
  | inr e ↦ ground (arith, in_set-admitted seen child m, in_set-admitted (x ∷ seen) child m, e)
]

names-narrowed :
    (parent child : List String) (m : String)
    → in_set child wildcard_model ≡ false
    → names_model (narrowed parent child) m ≡ (names_model parent m && names_model child m)
unfolding narrowed
names-narrowed parent child m plain =
    let both = common parent child in
    let extra = if in_set parent wildcard_model then admitted parent child else [] in
    ground (
      arith,
      plain,
      names-in_set (both ++ extra) m,
      names-in_set parent m,
      names-in_set child m,
      in_set-append both extra m,
      in_set-append both extra wildcard_model,
      in_set-common parent child m,
      in_set-common parent child wildcard_model,
      in_set-admitted parent child m,
      in_set-admitted parent child wildcard_model,
    )

-- The intersection names what both lists name.
names-intersect :
    (parent child : List String) (m : String)
    → names_model (intersect parent child) m ≡ (names_model parent m && names_model child m)
unfolding intersect
names-intersect parent [] m = ground arith
names-intersect parent (x ∷ child) m = elim (Bool-cases (in_set (x ∷ child) wildcard_model)) [
  | inl e ↦ simp e (ground (arith, e, names-in_set (x ∷ child) m))
  | inr e ↦ simp e (names-narrowed parent (x ∷ child) m e)
]

-- What one layer admits: the list that it sets, when it sets one, less what it denies.
abbrev pub names_if_set : Option (List String) → String → Bool
names_if_set none m = true
names_if_set (some xs) m = names_model xs m

abbrev pub layer_allows : LimitOverride → String → Bool
layer_allows o m = names_if_set o.allowed_models m && not (names_model o.denied_models m)

abbrev pub all_allow : List LimitOverride → String → Bool
all_allow [] m = true
all_allow (o ∷ overrides) m = layer_allows o m && all_allow overrides m

names-tighten :
    (parent : List String) (o : Option (List String)) (m : String)
    → names_model (tighten parent o) m ≡ (names_model parent m && names_if_set o m)
unfolding tighten
names-tighten parent none m = ground arith
names-tighten parent (some child) m = names-intersect parent child m

allows-merge_override :
    (t : Tier) (o : LimitOverride) (m : String)
    → allows_model (merge_override t o) m ≡ (allows_model t m && layer_allows o m)
unfolding allows_model merge_override
allows-merge_override t o m = ground (
  arith,
  names-append t.denied_models o.denied_models m,
  names-tighten t.allowed_models o.allowed_models m,
)

-- After any overrides the tier admits a model exactly when the tier admitted it before and every
-- override does: no override lists allowed models without it, and none denies it. So overrides, in
-- any order, only ever tighten the models.
pub allows-merge_tier :
    (t : Tier) (overrides : List LimitOverride) (m : String)
    → allows_model (merge_tier t overrides) m ≡ (allows_model t m && all_allow overrides m)
unfolding merge_tier
allows-merge_tier t [] m = ground arith
allows-merge_tier t (o ∷ overrides) m =
    ground (arith, allows-merge_tier (merge_override t o) overrides m, allows-merge_override t o m)
