-- ===== src/Circuit/Breaker/Trails.antt =====
-- What the transition observer is told.
use breakwater.Base.{
  ℕ, ◌≡◌, refl, sym, subst, inl, inr, true, false, List, [], ◌∷◌, ◌++◌, Option, none, some, String,
  str_eq, arith, Bool-cases, str_eq_refl, String-cases, if◌then◌else◌, lookup, All,
}
use breakwater.Circuit.Types.{
  State, closed, opened, half_open, Outcome, ProbeGrant, Transition, Config,
}
use breakwater.Circuit.Machine.{Guarded, Governor, allow, observe}
use breakwater.Circuit.Breaker.{
  Registry, new_registry, state_of, state_of-store, store, allow_call, read_state, reset,
  reset_state, report_at, report, admit, Call, allows, reads, resets, reports, step, run,
}

-- The legal moves of a machine; only a reset goes from open straight to closed.
pub data Edge : State → State → Type 0 where
  trip : Edge closed opened
  cool : Edge opened half_open
  reopen : Edge half_open opened
  recover : Edge half_open closed
  force : Edge opened closed

-- The transitions told of `id` lead from one state to another, each one legal and each one starting
-- where the one before it ended.
abbrev pub Trail : String → State → List Transition → State → Type 0
Trail id from [] to = from ≡ to
Trail id from (t ∷ ts) to =
    if str_eq t.upstream_id id
    then (t.from ≡ from) × Edge t.from t.to × Trail id t.to ts to
    else Trail id from ts to

Trail-append :
    (id : String) (a b c : State) (ts us : List Transition)
    → Trail id a ts b
    → Trail id b us c
    → Trail id a (ts ++ us) c
Trail-append id a b c [] us h k = subst (λ x. Trail id x us c) (sym h) k
Trail-append id a b c (t ∷ ts) us h k = elim (Bool-cases (str_eq t.upstream_id id)) [
  | inl e ↦ let h' = rw e at h in rw e (h'.0, h'.1, Trail-append id t.to b c ts us h'.2 k)
  | inr e ↦ rw e (Trail-append id a b c ts us (rw e at h) k)
]

-- Transitions of another upstream do not lead anywhere.
Trail-aside :
    (id j : String) (a : State) (ts : List Transition)
    → str_eq id j ≡ false
    → All (λ t. t.upstream_id ≡ id) ts
    → Trail j a ts a
Trail-aside id j a [] ne h = refl
Trail-aside id j a (t ∷ ts) ne h = rw (h.0, ne) (Trail-aside id j a ts ne h.1)

ruleset edges = (trip, cool, reopen, recover, force)

-- A step of one machine tells the observer its way.
record Moved (id : String) (s : Guarded ℕ) (t : Guarded ℕ) (fired : List Transition) : Type 0 where
  keeps_id : t.machine.id ≡ id
  trail : Trail id s.machine.name fired t.machine.name
  own : All (λ x. x.upstream_id ≡ id) fired

module _ (g : Governor) (on : g.observed ≡ true) (id : String) (s : Guarded ℕ)
    (e : s.machine.id ≡ id) where
  allow-Moved : (now n : ℕ) → Moved id s (allow g now n s).0 (allow g now n s).1
  unfolding allow
  allow-Moved now n = grind (arith, edges, str_eq_refl id)

  observe-Moved : (now : ℕ) → Moved id s (observe g now s).0 (observe g now s).1
  unfolding observe
  observe-Moved now = grind (arith, edges, str_eq_refl id)

  reset_state-Moved : (stamp : ℕ) → Moved id s (reset_state g stamp s).0 (reset_state g stamp s).1
  unfolding reset_state
  reset_state-Moved stamp = grind (arith, edges, str_eq_refl id)

  report_at-Moved :
      (k now stamp : ℕ) (grant : Option ProbeGrant) (o : Outcome)
      → let r = report_at s.machine.name g k now stamp grant o s in Moved id s r.0 r.1
  unfolding report_at
  report_at-Moved k now stamp grant o = grind (arith, edges, str_eq_refl id)

-- The observer's log agrees with the machine of every upstream.
pub record IsTold (r : Registry) : Type 0 where
  pub observed : r.gov.observed ≡ true
  pub named : (id : String) → (state_of r id).machine.id ≡ id
  pub trail : (id : String) → Trail id closed r.transitions (state_of r id).machine.name

module _ (r : Registry) (v : IsTold r) where
  store-Trail :
      (id : String) (t : Guarded ℕ) (fired : List Transition)
      → Moved id (state_of r id) t fired
      → (j : String)
      → Trail j closed (r.transitions ++ fired) (state_of (store r id t fired) j).machine.name
  store-Trail id t fired m j = elim (String-cases id j) [
    | inl e ↦
        rw (state_of-store, ← e, str_eq_refl)
          (Trail-append id closed _ _ r.transitions fired (v.trail id) m.trail)
    | inr e ↦
        rw (state_of-store, e)
          (Trail-append j closed _ _ r.transitions fired (v.trail j)
            (Trail-aside id j _ fired e m.own))
  ]

  store-named :
      (id : String) (t : Guarded ℕ) (fired : List Transition)
      → t.machine.id ≡ id
      → (j : String) → (state_of (store r id t fired) j).machine.id ≡ j
  store-named id t fired e j = elim (String-cases id j) [
    | inl f ↦ rw (state_of-store, ← f, str_eq_refl) e
    | inr f ↦ rw (state_of-store, f) (v.named j)
  ]

  store-IsTold :
      (id : String) (t : Guarded ℕ) (fired : List Transition)
      → Moved id (state_of r id) t fired
      → IsTold (store r id t fired)
  store-IsTold id t fired m = record {
    observed = unfold store in v.observed;
    named = store-named id t fired m.keeps_id;
    trail = unfold store in store-Trail id t fired m;
  }

admit-IsTold :
    (r : Registry) (id : String) (a : Option (Option ProbeGrant))
    → IsTold r
    → IsTold (admit r id a).0
unfolding admit state_of
admit-IsTold r id none v = v
admit-IsTold r id (some none) v = v
admit-IsTold r id (some (some p)) v = record {
  observed = v.observed;
  named = v.named;
  trail = v.trail;
}

step-IsTold : (r : Registry) (c : Call) → IsTold r → IsTold (step r c)
unfolding step allow_call read_state reset report
step-IsTold r (allows id now) v =
    admit-IsTold _ id _
      (store-IsTold r v id _ _ (allow-Moved r.gov v.observed id (state_of r id) (v.named id) now _))
step-IsTold r (reads id now) v =
    store-IsTold r v id _ _ (observe-Moved r.gov v.observed id (state_of r id) (v.named id) now)
step-IsTold r (resets id stamp) v =
    store-IsTold r v id _ _
      (reset_state-Moved r.gov v.observed id (state_of r id) (v.named id) stamp)
step-IsTold r (reports p o now stamp) v = elim (Bool-cases p.reported) [
  | inl e ↦ rw (e, report) v
  | inr e ↦
      let id = p.upstream_id in
      rw (e, report)
        (store-IsTold r v id _ _ (
          report_at-Moved r.gov v.observed id (state_of r id) (v.named id) r.fail_threshold now
            stamp p.grant o))
]

run-IsTold : (r : Registry) (calls : List Call) → IsTold r → IsTold (run r calls)
unfolding run
run-IsTold r [] v = v
run-IsTold r (c ∷ calls) v = run-IsTold (step r c) calls (step-IsTold r c v)

new_registry-IsTold : (c : Config) → IsTold (new_registry c true)
unfolding new_registry state_of lookup
new_registry-IsTold c = record { observed = refl; named = λ id. refl; trail = λ id. refl }

-- After any calls on a new registry with an observer, the transitions told of an upstream form a
-- path from closed to the state its machine is in, every step of it legal: closed is left only for
-- open, half-open is entered only from open.
pub run-Trail :
    (c : Config) (calls : List Call) (id : String)
    → let r = run (new_registry c true) calls in
      Trail id closed r.transitions (state_of r id).machine.name
run-Trail c calls = (run-IsTold _ calls (new_registry-IsTold c)).trail
