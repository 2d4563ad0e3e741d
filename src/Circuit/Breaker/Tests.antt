-- ===== src/Circuit/Breaker/Tests.antt =====
-- Runs of the registry on small inputs, and the theorems at such inputs.
use breakwater.Base.{◌≡◌, refl, true, some, none, List, [], ◌∷◌, arith, lookup, insert}
use breakwater.Circuit.Types.{closed, opened, client_fault, Config, ProbeGrant}
use breakwater.Circuit.Machine.{allow, observe}
use breakwater.Circuit.Breaker.{
  Registry, new_registry, allow_call, read_state, report, state_of, store, Call, allows, reads,
  resets, step, run,
}
use breakwater.Circuit.Breaker.Invariant.{IsValid, run-new_registry-IsValid}
use breakwater.Circuit.Breaker.Runs.{open_until_cooldown, single_probe, faults}
use breakwater.Circuit.Breaker.Recovery.{probe_decides, probe_permission}
use breakwater.Circuit.Breaker.Trails.{Trail, run-Trail}

abbrev config : Config
config = record { fail_threshold = 2; cooldown = 100; probe_timeout = 10 }

-- Two server faults open the breaker at instant 8.
abbrev faulty : List Call
faulty = faults "a" ((5, 6) ∷ (7, 8) ∷ [])

tripped : Registry
unfolding new_registry run step report state_of store lookup insert
tripped = run (new_registry config true) faulty

-- Its cooldown over, the next call is the probe.
probing : Registry
unfolding tripped allow_call allow
probing = (allow_call tripped "a" 200).0

tripped_reads : (read_state tripped "a" 50).1 ≡ opened
unfolding tripped read_state observe
tripped_reads = refl

probing_reads : (read_state probing "a" 211).1 ≡ opened
unfolding probing read_state observe
probing_reads = refl

abbrev history : List Call
history = allows "a" 3 ∷ resets "b" 4 ∷ reads "a" 300 ∷ faulty

run-new_registry-IsValid_example : IsValid (run (new_registry config true) history)
run-new_registry-IsValid_example = run-new_registry-IsValid config true history

run-Trail_example :
    let r = run (new_registry config true) history in
    Trail "a" closed r.transitions (state_of r "a").machine.name
run-Trail_example = run-Trail config history "a"

open_until_cooldown_example :
    let calls = allows "a" 20 ∷ resets "b" 30 ∷ faults "a" ((40, 41) ∷ []) in
    (state_of (run tripped calls) "a" ≡ state_of tripped "a")
    × ((allow_call (run tripped calls) "a" 107).1 ≡ none)
unfolding tripped
open_until_cooldown_example =
    open_until_cooldown tripped "a" (allows "a" 20 ∷ resets "b" 30 ∷ faults "a" ((40, 41) ∷ [])) 107
      refl ((λ _. omega arith), (refl, (tt, tt))) (omega arith)

abbrev first_grant : ProbeGrant
first_grant = record { serial = 0; deadline = 210 }

single_probe_example :
    let calls = allows "a" 205 ∷ reads "a" 210 ∷ faults "a" ((206, 207) ∷ []) in
    (state_of (run probing calls) "a" ≡ state_of probing "a")
    × ((allow_call (run probing calls) "a" 208).1 ≡ none)
unfolding probing
single_probe_example =
    single_probe probing "a" first_grant
      (allows "a" 205 ∷ reads "a" 210 ∷ faults "a" ((206, 207) ∷ [])) 208 refl refl
      ((λ _. omega arith), ((λ _. omega arith), (refl, tt)))

probe_decides_example :
    let admitted = allow_call tripped "a" 200 in
    let settled =
      state_of (report admitted.0 (probe_permission tripped "a" 200) client_fault 205 206).0 "a" in
    (admitted.1 ≡ some (probe_permission tripped "a" 200))
    × (settled.machine.name ≡ closed)
    × (settled.machine.probe ≡ none)
    × (settled.evidence ≡ 0)
unfolding tripped
probe_decides_example =
    probe_decides tripped "a" 200 205 206 client_fault refl (omega arith) (omega arith)
