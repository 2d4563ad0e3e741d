-- ===== src/Auth/Limits.antt =====
-- internal/auth/auth.go and limits.go: a tier, the overrides that are merged into it, and the models
-- that it admits. A nil list and an empty one are the same list; the copies that keep the snapshots
-- apart are the lists themselves.
pub mod Admission
mod Tests
use breakwater.Base.{
  Bool, true, false, not, ◌&&◌, ◌||◌, List, [], ◌∷◌, ◌++◌, Option, none, some, String, Assoc,
  insert, str_eq, if◌then◌else◌,
}
use breakwater.Base.Int.{ℤ}

pub record Tier : Type 0 where
  pub id : String
  pub rpm : ℤ
  pub tpm : ℤ
  pub max_tokens : ℤ
  pub monthly_quota : ℤ
  pub allowed_models : List String
  pub denied_models : List String
  pub model_quotas : Assoc ℤ
  pub concurrency : ℤ

pub record LimitOverride : Type 0 where
  pub rpm : Option ℤ
  pub tpm : Option ℤ
  pub max_tokens : Option ℤ
  pub monthly_quota : Option ℤ
  pub concurrency : Option ℤ
  pub allowed_models : Option (List String)
  pub denied_models : List String
  pub model_quotas : Assoc ℤ

abbrev pub wildcard_model : String
wildcard_model = "*"

-- A loop of `AllowsModel`, and a set built from a list.
abbrev pub names_model : List String → String → Bool
names_model [] model = false
names_model (x ∷ xs) model = (str_eq x wildcard_model || str_eq x model) || names_model xs model

abbrev pub in_set : List String → String → Bool
in_set [] model = false
in_set (x ∷ xs) model = str_eq x model || in_set xs model

-- `AllowsModel`.
pub allows_model : Tier → String → Bool
allows_model t model =
    if names_model t.denied_models model then false else names_model t.allowed_models model

-- The members of the parent that the child has.
common : List String → List String → List String
common [] child = []
common (m ∷ parent) child =
    let rest = common parent child in if in_set child m then m ∷ rest else rest

-- The members of the child that the parent admits by its wildcard alone, each once.
admitted : List String → List String → List String
admitted seen [] = []
admitted seen (m ∷ child) =
    if in_set seen m then admitted seen child else m ∷ admitted (m ∷ seen) child

narrowed : List String → List String → List String
unfolding common admitted
narrowed parent child =
    common parent child ++ (if in_set parent wildcard_model then admitted parent child else [])

-- `intersect`.
pub intersect : List String → List String → List String
unfolding narrowed
intersect parent [] = []
intersect parent (m ∷ child) =
    if in_set (m ∷ child) wildcard_model then parent else narrowed parent (m ∷ child)

abbrev pub or_inherit : Option ℤ → ℤ → ℤ
or_inherit none below = below
or_inherit (some v) below = v

tighten : List String → Option (List String) → List String
unfolding intersect
tighten parent none = parent
tighten parent (some child) = intersect parent child

set_quotas : Assoc ℤ → Assoc ℤ → Assoc ℤ
set_quotas quotas [] = quotas
set_quotas quotas ((model, quota) ∷ more) = set_quotas (insert model quota quotas) more

-- One turn of the loop of `MergeTier`.
pub merge_override : Tier → LimitOverride → Tier
unfolding tighten set_quotas
merge_override t o = record {
  id = t.id;
  rpm = or_inherit o.rpm t.rpm;
  tpm = or_inherit o.tpm t.tpm;
  max_tokens = or_inherit o.max_tokens t.max_tokens;
  monthly_quota = or_inherit o.monthly_quota t.monthly_quota;
  allowed_models = tighten t.allowed_models o.allowed_models;
  denied_models = t.denied_models ++ o.denied_models;
  model_quotas = set_quotas t.model_quotas o.model_quotas;
  concurrency = or_inherit o.concurrency t.concurrency;
}

-- `MergeTier`.
pub merge_tier : Tier → List LimitOverride → Tier
unfolding merge_override
merge_tier t [] = t
merge_tier t (o ∷ overrides) = merge_tier (merge_override t o) overrides
