-- ===== src/Recovery/Tests.antt =====
-- The recovery loop on two upstreams.
use breakwater.Base.{
  ◌≤◌, ◌≡◌, refl, Bool, true, false, List, [], ◌∷◌, String, lookup, delete, insert, arith, min, ◌*◌,
  ◌-◌, ◌^◌,
}
use breakwater.Router.Control.{Switch, upstream_enabled, flag, auto_enable_upstream}
use breakwater.Recovery.{
  Config, Loop, recover_auto_disabled, auto_disabled_ids, recover_each, recover_one, note_success,
  noted, restore, is_waiting, probe_backoff,
}
use breakwater.Recovery.Backoff.{probe_backoff-eq-doubled}
use breakwater.Recovery.Streak.{streak}
use breakwater.Recovery.Restored.{
  Event, ticks, run, begin, happen, IsOnce, contains, restored_after_streak,
}

probe_backoff-eq-doubled_example : probe_backoff 5 60 5 ≡ min 60 (5 * 2 ^ (5 - 1))
probe_backoff-eq-doubled_example = probe_backoff-eq-doubled 5 60 5 (omega arith) (omega arith)

abbrev config : Config
config = record { interval = 5; backoff = 60; passes = 2; probes = ("a", tt) ∷ ("b", tt) ∷ [] }

abbrev switch : Switch
switch = record {
  disabled_models = [];
  disabled_upstreams = [];
  auto_disabled = ("a", record { reason = "401"; since = 1 }) ∷ [];
  known_models = [];
  known_upstreams = ("a", tt) ∷ ("b", tt) ∷ [];
  wildcard_models = true;
  fires = false;
}

-- The list is in order as it is.
abbrev same : List String → List String
same ids = ids

abbrev up : String → Bool
up id = true

abbrev events : List Event
events = ticks 10 up ∷ []

before : Loop
unfolding run happen recover_auto_disabled auto_disabled_ids recover_each recover_one note_success
    noted restore is_waiting lookup delete insert auto_enable_upstream
before = run same config (begin switch) events

after : Loop
unfolding before
after = recover_auto_disabled same config 15 up before

once : IsOnce (same (auto_disabled_ids before.switch.auto_disabled))
unfolding before contains
once = ground arith

out : upstream_enabled before.switch "a" ≡ false
unfolding before upstream_enabled
out = refl

back : upstream_enabled after.switch "a" ≡ true
unfolding after upstream_enabled
back = refl

restored_after_streak_example :
    (config.passes ≤ streak "a" after.log)
    × (1 ≤ streak "a" after.log)
    × (flag (lookup "a" before.switch.disabled_upstreams) ≡ false)
unfolding after before
restored_after_streak_example =
    restored_after_streak same config switch events 15 up "a" once out back
