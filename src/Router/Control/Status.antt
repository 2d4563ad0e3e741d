-- ===== src/Router/Control/Status.antt =====
-- control.go: one upstream's place in the switch, and the automaton it follows.
use breakwater.Base.{
  ℕ, Bool, true, false, List, [], ◌∷◌, Option, none, some, String, lookup, ok, err, if◌then◌else◌,
  ◌≡◌, refl, ◌∙◌, ap, lookup-insert, lookup-delete, str_eq, eq_iff, arith, str_eq_refl,
}
use breakwater.Router.Control.{
  Switch, AutoDisable, unknown_model, unknown_upstream, is_some, flag, set_model, set_upstream,
  auto_disable_upstream, auto_enable_upstream, upstream_enabled, Call, sets_model, sets_upstream,
  auto_disables, auto_enables, step, run, fired,
}

-- Who took an upstream out of rotation.
pub data Status : Type 0 where
  available : Status
  manual : Status
  automatic : AutoDisable → Status

abbrev from_auto : Option AutoDisable → Status
from_auto none = available
from_auto (some a) = automatic a

abbrev pub is_available : Status → Bool
is_available available = true
is_available _ = false

unfoldable pub status : Switch → String → Status
status s id =
    if flag (lookup id s.disabled_upstreams) then manual else from_auto (lookup id s.auto_disabled)

abbrev disable : AutoDisable → Status → Status
disable a available = automatic a
disable a x = x

abbrev enable : Status → Status
enable (automatic a) = available
enable x = x

-- What a call means for an upstream that the configuration names.
pub spec_step : String → Status → Call → Status
spec_step id x (sets_model m enabled) = x
spec_step id x (sets_upstream j enabled) =
    if str_eq j id then (if enabled then available else manual) else x
spec_step id x (auto_disables j reason now) =
    if str_eq j id then disable (record { reason = reason; since = now }) x else x
spec_step id x (auto_enables j) = if str_eq j id then enable x else x

pub spec_run : String → Status → List Call → Status
unfolding spec_step
spec_run id x [] = x
spec_run id x (c ∷ calls) = spec_run id (spec_step id x c) calls

step-known : (s : Switch) (c : Call) → (step s c).known_upstreams ≡ s.known_upstreams
unfolding step
step-known s (sets_model m enabled) = ground arith
step-known s (sets_upstream j enabled) = ground arith
step-known s (auto_disables j reason now) = ground arith
step-known s (auto_enables j) = ground arith

step-status :
    (s : Switch) (id : String) (c : Call)
    → is_some (lookup id s.known_upstreams) ≡ true
    → status (step s c) id ≡ spec_step id (status s id) c
unfolding step status spec_step
step-status s id (sets_model m enabled) known = ground arith
step-status s id (sets_upstream j enabled) known = ground (
  arith,
  eq_iff j id,
  lookup-insert id j true s.disabled_upstreams,
  lookup-delete id j s.disabled_upstreams,
  lookup-delete id j s.auto_disabled,
)
step-status s id (auto_disables j reason now) known = ground (
  arith,
  eq_iff j id,
  lookup-insert id j (record { reason = reason; since = now }) s.auto_disabled,
)
step-status s id (auto_enables j) known =
    ground (arith, eq_iff j id, lookup-delete id j s.auto_disabled)

-- Of an upstream that the configuration names, the switch is the three-state automaton `spec_step`
-- after any calls: an operator's disable is lifted only by the operator and takes the place of an
-- automatic one, an automatic disable keeps its first reason and time, and an operator's enable
-- clears both.
pub run-status :
    (s : Switch) (id : String) (calls : List Call)
    → is_some (lookup id s.known_upstreams) ≡ true
    → status (run s calls) id ≡ spec_run id (status s id) calls
unfolding run spec_run
run-status s id [] known = refl
run-status s id (c ∷ calls) known =
    run-status (step s c) id calls (ap (λ m. is_some (lookup id m)) (step-known s c) ∙ known)
    ∙ ap (λ x. spec_run id x calls) (step-status s id c known)

-- An upstream accepts traffic exactly when its status is available.
pub upstream_enabled-status :
    (s : Switch) (id : String) → upstream_enabled s id ≡ is_available (status s id)
unfolding upstream_enabled status
upstream_enabled-status s id = ground arith

-- No call of the list is the operator's enable of the upstream.
abbrev pub NeverEnabled : String → List Call → Type 0
NeverEnabled id [] = Unit {0}
NeverEnabled id (sets_upstream j true ∷ calls) = (str_eq j id ≡ false) × NeverEnabled id calls
NeverEnabled id (_ ∷ calls) = NeverEnabled id calls

spec_run-manual :
    (id : String) (calls : List Call) → NeverEnabled id calls → spec_run id manual calls ≡ manual
unfolding spec_run spec_step
spec_run-manual id [] h = refl
spec_run-manual id (sets_model m enabled ∷ calls) h = spec_run-manual id calls h
spec_run-manual id (sets_upstream j true ∷ calls) h = rw h.0 (spec_run-manual id calls h.1)
spec_run-manual id (sets_upstream j false ∷ calls) h = ground (arith, spec_run-manual id calls h)
spec_run-manual id (auto_disables j reason now ∷ calls) h =
    ground (arith, spec_run-manual id calls h)
spec_run-manual id (auto_enables j ∷ calls) h = ground (arith, spec_run-manual id calls h)

spec_first :
    (s : Switch) (id : String) (calls : List Call)
    → NeverEnabled id calls
    → spec_run id (status s id) (sets_upstream id false ∷ calls) ≡ manual
unfolding spec_run spec_step
spec_first s id calls never = rw str_eq_refl (spec_run-manual id calls never)

-- Once an operator has disabled an upstream that the configuration names, no other calls than the
-- operator's own enable of it bring it back.
manual_until_operator :
    (s : Switch) (id : String) (calls : List Call)
    → is_some (lookup id s.known_upstreams) ≡ true
    → NeverEnabled id calls
    → upstream_enabled (run (set_upstream s id false).0 calls) id ≡ false
unfolding run step
manual_until_operator s id calls known never =
    let disabled = sets_upstream id false in
    upstream_enabled-status (run s (disabled ∷ calls)) id
    ∙ ap is_available (run-status s id (disabled ∷ calls) known ∙ spec_first s id calls never)

-- A name that the configuration does not have is refused by every setter of upstreams, which then
-- changes nothing and calls nobody; a model's is refused unless a wildcard serves it.
unknown-refused :
    (s : Switch) (name reason : String) (enabled : Bool) (now : ℕ)
    → is_some (lookup name s.known_upstreams) ≡ false
    → is_some (lookup name s.known_models) ≡ false
    → (set_upstream s name enabled ≡ (s, err (unknown_upstream name), []))
      × (auto_disable_upstream s name reason now ≡ (s, err (unknown_upstream name)))
      × (auto_enable_upstream s name ≡ (s, err (unknown_upstream name), []))
      × ((set_model s name enabled).1
          ≡ (if s.wildcard_models then ok tt else err (unknown_model name)))
      × (s.wildcard_models ≡ false → (set_model s name enabled).0 ≡ s)
unfolding set_upstream auto_disable_upstream auto_enable_upstream set_model
unknown-refused s name reason enabled now u m =
    (rw u refl, rw u refl, rw u refl, ground arith, λ w. rw (m, w) refl)

-- The recovery of an upstream that an operator has disabled calls the installed callback with it,
-- although the upstream stays out of rotation.
recovery_fires_when_disabled :
    (s : Switch) (id : String)
    → is_some (lookup id s.known_upstreams) ≡ true
    → s.fires ≡ true
    → status s id ≡ manual
    → ((auto_enable_upstream s id).2 ≡ id ∷ [])
      × (upstream_enabled (auto_enable_upstream s id).0 id ≡ false)
unfolding auto_enable_upstream upstream_enabled status fired
recovery_fires_when_disabled s id known fires m = (ground arith, ground arith)
