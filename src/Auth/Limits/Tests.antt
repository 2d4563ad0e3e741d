-- ===== src/Auth/Limits/Tests.antt =====
-- A tier for any model, a user restricted to two, and a key that one of them is denied to.
use breakwater.Base.{◌≡◌, refl, true, ◌&&◌, List, [], ◌∷◌, none, some}
use breakwater.Base.Int.{pos}
use breakwater.Auth.Limits.{
  Tier, LimitOverride, allows_model, merge_tier, merge_override, tighten, intersect, narrowed,
  common, admitted,
}
use breakwater.Auth.Limits.Admission.{all_allow, allows-merge_tier}

abbrev tier : Tier
tier = record {
  id = "pro";
  rpm = pos 60;
  tpm = pos 1000;
  max_tokens = pos 100;
  monthly_quota = pos 0;
  allowed_models = "*" ∷ [];
  denied_models = [];
  model_quotas = [];
  concurrency = pos 2;
}

abbrev nothing : LimitOverride
nothing = record {
  rpm = none;
  tpm = none;
  max_tokens = none;
  monthly_quota = none;
  concurrency = none;
  allowed_models = none;
  denied_models = [];
  model_quotas = [];
}

abbrev layers : List LimitOverride
layers =
    record nothing { allowed_models = some ("gpt" ∷ "claude" ∷ []) }
    ∷ record nothing { denied_models = "gpt" ∷ [] }
    ∷ []

claude_stays : allows_model (merge_tier tier layers) "claude" ≡ true
unfolding allows_model merge_tier merge_override tighten intersect narrowed common admitted
claude_stays = refl

allows-merge_tier_example :
    allows_model (merge_tier tier layers) "gpt"
    ≡ (allows_model tier "gpt" && all_allow layers "gpt")
allows-merge_tier_example = allows-merge_tier tier layers "gpt"
