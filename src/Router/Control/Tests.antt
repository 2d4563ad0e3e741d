-- ===== src/Router/Control/Tests.antt =====
-- The switch on small inputs.
use breakwater.Base.{◌≡◌, refl, true, false, if◌then◌else◌, List, [], ◌∷◌, none, some, lookup}
use breakwater.Router.Control.{
  Switch, upstream_enabled, Call, sets_upstream, auto_disables, auto_enables, run, is_some,
}
use breakwater.Router.Control.{model_enabled}
use breakwater.Router.Control.View.{view, view-enabled}
use breakwater.Router.Control.Status.{status, manual, spec_run, run-status}

abbrev switch : Switch
switch = record {
  disabled_models = [];
  disabled_upstreams = ("b", true) ∷ [];
  auto_disabled = [];
  known_models = ("gpt", tt) ∷ [];
  known_upstreams = ("a", tt) ∷ ("b", tt) ∷ [];
  wildcard_models = false;
  fires = true;
}

known : is_some (lookup "b" switch.known_upstreams) ≡ true
unfolding lookup
known = refl

abbrev calls : List Call
calls = auto_disables "b" "auth" 7 ∷ auto_enables "b" ∷ sets_upstream "a" true ∷ []

run-status_example : status (run switch calls) "b" ≡ spec_run "b" (status switch "b") calls
run-status_example = run-status switch "b" calls known

is_manual : status switch "b" ≡ manual
unfolding status lookup
is_manual = refl

view-enabled_example :
    (lookup "b" (view switch).upstreams ≡ (
      if is_some (lookup "b" switch.known_upstreams)
      then some (upstream_enabled switch "b")
      else none))
    × (lookup "b" (view switch).models ≡ (
        if is_some (lookup "b" switch.known_models)
        then some (model_enabled switch "b")
        else (if is_some (lookup "b" switch.disabled_models) then some false else none)))
view-enabled_example = view-enabled switch "b"
