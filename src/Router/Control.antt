-- ===== src/Router/Control.antt =====
-- internal/router/control.go: the runtime switches over models and upstreams. The lock makes each
-- call one step; the callback `onUpstreamEnable` is the list of names it is called with.
pub mod Status
pub mod View
mod Tests
use breakwater.Base.{
  ℕ, Bool, true, false, not, ◌&&◌, ◌||◌, List, [], ◌∷◌, Option, none, some, String, Assoc, lookup,
  insert, delete, Result, ok, err, if◌then◌else◌,
}

pub data Error : Type 0 where
  unknown_model : String → Error
  unknown_upstream : String → Error

-- `autoDisable`, and the `AutoDisableInfo` that a view shows of it.
pub record AutoDisable : Type 0 where
  pub reason : String
  pub since : ℕ

-- `fires` says whether `onUpstreamEnable` is installed.
pub record Switch : Type 0 where
  pub disabled_models : Assoc Bool
  pub disabled_upstreams : Assoc Bool
  pub auto_disabled : Assoc AutoDisable
  pub known_models : Assoc (Unit {0})
  pub known_upstreams : Assoc (Unit {0})
  pub wildcard_models : Bool
  pub fires : Bool

abbrev pub is_some {ℓ} : {A : Type ℓ} → Option A → Bool
is_some none = false
is_some (some a) = true

-- A missing key of a `map[string]bool` reads false.
abbrev pub flag : Option Bool → Bool
flag none = false
flag (some b) = b

set_of : List String → Assoc (Unit {0})
set_of [] = []
set_of (k ∷ ks) = insert k tt (set_of ks)

pub new_switch : List String → List String → Bool → Bool → Switch
unfolding set_of
new_switch models upstreams wildcard fires = record {
  disabled_models = [];
  disabled_upstreams = [];
  auto_disabled = [];
  known_models = set_of models;
  known_upstreams = set_of upstreams;
  wildcard_models = wildcard;
  fires = fires;
}

-- `SetModel`.
pub set_model : Switch → String → Bool → Switch × Result Error (Unit {0})
set_model s model enabled =
    if not (is_some (lookup model s.known_models)) && not s.wildcard_models
    then (s, err (unknown_model model))
    else (if enabled
        then (record s { disabled_models = delete model s.disabled_models }, ok tt)
        else (record s { disabled_models = insert model true s.disabled_models }, ok tt))

-- The call of the callback, when one is installed.
fired : Switch → String → List String
fired s id = if s.fires then id ∷ [] else []

-- `SetUpstream`; the last part lists the calls of the callback.
pub set_upstream : Switch → String → Bool → Switch × Result Error (Unit {0}) × List String
unfolding fired
set_upstream s id enabled =
    if is_some (lookup id s.known_upstreams)
    then (if enabled
        then (
          record s {
            disabled_upstreams = delete id s.disabled_upstreams;
            auto_disabled = delete id s.auto_disabled;
          },
          ok tt,
          fired s id,
        )
        else (
          record s {
            disabled_upstreams = insert id true s.disabled_upstreams;
            auto_disabled = delete id s.auto_disabled;
          },
          ok tt,
          [],
        ))
    else (s, err (unknown_upstream id), [])

-- `AutoDisableUpstream`: true for a first disable. `now` is the clock.
pub auto_disable_upstream : Switch → String → String → ℕ → Switch × Result Error Bool
auto_disable_upstream s id reason now =
    if is_some (lookup id s.known_upstreams)
    then (if flag (lookup id s.disabled_upstreams) || is_some (lookup id s.auto_disabled)
        then (s, ok false)
        else (
          record s {
            auto_disabled = insert id (record { reason = reason; since = now }) s.auto_disabled;
          },
          ok true,
        ))
    else (s, err (unknown_upstream id))

-- `AutoEnableUpstream`.
unfoldable pub auto_enable_upstream :
    Switch → String → Switch × Result Error (Unit {0}) × List String
unfolding fired
auto_enable_upstream s id =
    if is_some (lookup id s.known_upstreams)
    then (record s { auto_disabled = delete id s.auto_disabled }, ok tt, fired s id)
    else (s, err (unknown_upstream id), [])

pub model_enabled : Switch → String → Bool
model_enabled s model = not (flag (lookup model s.disabled_models))

unfoldable pub upstream_enabled : Switch → String → Bool
upstream_enabled s id =
    not (flag (lookup id s.disabled_upstreams)) && not (is_some (lookup id s.auto_disabled))

-- The calls that change a switch.
pub data Call : Type 0 where
  sets_model : String → Bool → Call
  sets_upstream : String → Bool → Call
  auto_disables : String → String → ℕ → Call
  auto_enables : String → Call

pub step : Switch → Call → Switch
unfolding set_model set_upstream auto_disable_upstream auto_enable_upstream
step s (sets_model m enabled) = (set_model s m enabled).0
step s (sets_upstream id enabled) = (set_upstream s id enabled).0
step s (auto_disables id reason now) = (auto_disable_upstream s id reason now).0
step s (auto_enables id) = (auto_enable_upstream s id).0

pub run : Switch → List Call → Switch
unfolding step
run s [] = s
run s (c ∷ calls) = run (step s c) calls
