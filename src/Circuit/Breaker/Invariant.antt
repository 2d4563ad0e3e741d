-- ===== src/Circuit/Breaker/Invariant.antt =====
-- What holds of the consecutive-failure registry between two operations.
use breakwater.Base.{
  ℕ, suc, ◌<◌, ◌≡◌, inl, inr, Bool, Option, none, some, String, [], ◌∷◌, lookup, str_eq, arith,
  Bool-cases, List,
}
use breakwater.Circuit.Types.{closed, opened, Outcome, ProbeGrant, Permission, Config, Transition}
use breakwater.Circuit.Machine.{Guarded, Governor, allow, observe}
use breakwater.Circuit.Breaker.{
  Registry, state_of, store, allow_call, read_state, reset, reset_state, report_at, report,
  state_of-store, new_registry, admit, Call, allows, reads, resets, reports, step, run,
}

abbrev pub SerialBelow : ℕ → Option ProbeGrant → Type 0
SerialBelow n none = Unit {0}
SerialBelow n (some p) = p.serial < n

-- A probe is outstanding in half-open only, and a closed machine is below its threshold.
pub record IsSound (threshold next : ℕ) (s : Guarded ℕ) : Type 0 where
  pub closed_idle : s.machine.name ≡ closed → s.machine.probe ≡ none
  pub opened_idle : s.machine.name ≡ opened → s.machine.probe ≡ none
  pub below : s.machine.name ≡ closed → s.evidence < threshold
  pub serial_used : SerialBelow next s.machine.probe

-- An admission with a grant uses up a serial number.
abbrev serials_after : ℕ → Option (Option ProbeGrant) → ℕ
serials_after n (some (some p)) = suc n
serials_after n _ = n

module _ (g : Governor) (k n : ℕ) where
  allow-IsSound :
      (now : ℕ) (s : Guarded ℕ)
      → IsSound k n s
      → IsSound k (serials_after n (allow g now n s).2) (allow g now n s).0
  unfolding allow
  allow-IsSound now s v = ground arith

  observe-IsSound : (now : ℕ) (s : Guarded ℕ) → IsSound k n s → IsSound k n (observe g now s).0
  unfolding observe
  observe-IsSound now s v = ground arith

  reset_state-IsSound :
      (stamp : ℕ) (s : Guarded ℕ) → 0 < k → IsSound k n s → IsSound k n (reset_state g stamp s).0
  unfolding reset_state
  reset_state-IsSound stamp s h v = ground arith

  report_at-IsSound :
      (now stamp : ℕ) (grant : Option ProbeGrant) (o : Outcome) (s : Guarded ℕ)
      → 0 < k
      → IsSound k n s
      → IsSound k n (report_at s.machine.name g k now stamp grant o s).0
  unfolding report_at
  report_at-IsSound now stamp grant o s h v = ground arith

-- The invariant of the registry: of every upstream, met or not.
pub record IsValid (r : Registry) : Type 0 where
  pub positive : 0 < r.fail_threshold
  pub sound : (id : String) → IsSound r.fail_threshold r.next_serial (state_of r id)

IsSound-serials_after :
    (k n : ℕ) (s : Guarded ℕ) (a : Option (Option ProbeGrant))
    → IsSound k n s
    → IsSound k (serials_after n a) s
IsSound-serials_after k n s a v = ground arith

state_of-update :
    (P : Guarded ℕ → Type 0) (r : Registry) (id : String) (s : Guarded ℕ) (fired : List Transition)
    → ((j : String) → P (state_of r j))
    → P s
    → (j : String) → P (state_of (store r id s fired) j)
state_of-update P r id s fired h v j = elim (Bool-cases (str_eq id j)) [
  | inl e ↦ rw (state_of-store, e) v
  | inr e ↦ rw (state_of-store, e) (h j)
]

module _ (r : Registry) (v : IsValid r) where
  abbrev Kept : Guarded ℕ → Type 0
  Kept = IsSound r.fail_threshold r.next_serial

  -- A step of one machine that keeps it sound keeps the registry valid.
  store-IsValid :
      (id : String) (s : Guarded ℕ) (fired : List Transition)
      → Kept s
      → IsValid (store r id s fired)
  unfolding store
  store-IsValid id s fired h = record {
    positive = v.positive;
    sound = unfold store in state_of-update Kept r id s fired v.sound h;
  }

  admit-IsValid :
      (id : String) (s : Guarded ℕ) (fired : List Transition) (a : Option (Option ProbeGrant))
      → IsSound r.fail_threshold (serials_after r.next_serial a) s
      → IsValid (admit (store r id s fired) id a).0
  unfolding admit
  admit-IsValid id s fired none h = store-IsValid id s fired h
  admit-IsValid id s fired (some none) h = store-IsValid id s fired h
  admit-IsValid id s fired (some (some p)) h = record {
    positive = unfold store in v.positive;
    sound =
        unfold store state_of in
        state_of-update (IsSound r.fail_threshold (suc r.next_serial)) r id s fired
          (λ j. IsSound-serials_after _ r.next_serial _ (some (some p)) (v.sound j)) h;
  }

  allow_call-IsValid : (id : String) (now : ℕ) → IsValid (allow_call r id now).0
  unfolding allow_call
  allow_call-IsValid id now =
      admit-IsValid id _ _ _
        (allow-IsSound r.gov r.fail_threshold r.next_serial now (state_of r id) (v.sound id))

  read_state-IsValid : (id : String) (now : ℕ) → IsValid (read_state r id now).0
  unfolding read_state
  read_state-IsValid id now =
      store-IsValid id _ _ (observe-IsSound r.gov _ _ now (state_of r id) (v.sound id))

  reset-IsValid : (id : String) (stamp : ℕ) → IsValid (reset r id stamp)
  unfolding reset
  reset-IsValid id stamp = store-IsValid id _ _ (
      unfold reset_state in
      reset_state-IsSound r.gov _ _ stamp (state_of r id) v.positive (v.sound id))

  report-IsValid :
      (p : Permission) (o : Outcome) (now stamp : ℕ) → IsValid (report r p o now stamp).0
  unfolding report
  report-IsValid p o now stamp = elim (Bool-cases p.reported) [
    | inl e ↦ rw (e, report) v
    | inr e ↦
        rw (e, report)
          (store-IsValid p.upstream_id _ _ (
            report_at-IsSound r.gov _ _ now stamp p.grant o (state_of r p.upstream_id) v.positive
              (v.sound p.upstream_id)))
  ]

-- Every call of the port, by any caller and at any time, keeps the registry valid.
pub step-IsValid : (r : Registry) (c : Call) → IsValid r → IsValid (step r c)
unfolding step
step-IsValid r (allows id now) v = allow_call-IsValid r v id now
step-IsValid r (reads id now) v = read_state-IsValid r v id now
step-IsValid r (resets id stamp) v = reset-IsValid r v id stamp
step-IsValid r (reports p o now stamp) v = report-IsValid r v p o now stamp

new_registry-IsValid : (c : Config) (observed : Bool) → IsValid (new_registry c observed)
unfolding new_registry
new_registry-IsValid c observed = record {
  positive = ground arith;
  sound = λ id. unfold state_of lookup in (ground arith);
}

run-IsValid : (r : Registry) (calls : List Call) → IsValid r → IsValid (run r calls)
unfolding run
run-IsValid r [] v = v
run-IsValid r (c ∷ calls) v = run-IsValid (step r c) calls (step-IsValid r c v)

-- After any calls on a new registry, whatever its config: in every machine a probe is outstanding
-- only in half-open, a closed machine's failure count is below the threshold, and the serial
-- number of an outstanding grant is not given out again.
pub run-new_registry-IsValid :
    (c : Config) (observed : Bool) (calls : List Call)
    → IsValid (run (new_registry c observed) calls)
run-new_registry-IsValid c observed calls = run-IsValid _ calls (new_registry-IsValid c observed)
