-- ===== src/Cache/Flight/Invariant.antt =====
-- singleflight.go: the registry names exactly the flights that still run or have just fetched.
use breakwater.Base.{
  ℕ, ◌≤◌, ◌<◌, ◌≡◌, ◌≢◌, refl, sym, ap, ◌∙◌, inl, inr, Bool, true, false, none, some, String,
  str_eq, lookup, lookup-insert, lookup-insert_self, lookup-delete, eq_iff, ◌==◌, arith, Bool-cases,
}
use mathlib.Core.Option.{some-injective, none-ne-some}
use breakwater.Cache.Flight.{
  Stage, running, fetched, removed, closed, Waiter, idle, waiting, got, left, Flight, set_stage,
  set_waiter, join, remove,
}

abbrev pub is_active : {R : Type 0} → Stage R → Bool
is_active running = true
is_active (fetched r) = true
is_active _ = false

-- What a waiter knows of its flight.
abbrev pub Knows : {R : Type 0} → Flight R → Waiter R → Type 0
Knows s (waiting id) = id < s.next
Knows s (got id r) = (id < s.next) × ((s.flights id).stage ≡ closed r)
Knows s _ = Unit {0}

pub record IsConsistent {R : Type 0} (s : Flight R) : Type 0 where
  pub registered :
      (k : String) (id : ℕ)
      → lookup k s.calls ≡ some id
      → (id < s.next) × ((s.flights id).key ≡ k) × (is_active (s.flights id).stage ≡ true)
  pub active :
      (id : ℕ)
      → id < s.next
      → is_active (s.flights id).stage ≡ true
      → lookup (s.flights id).key s.calls ≡ some id
  pub known : (c : ℕ) → Knows s (s.waiters c)

pub false-true : false ≢ true
false-true h = ground (arith, h)

pub eq_of_test : (i j : ℕ) → (i == j) ≡ true → i ≡ j
eq_of_test i j h = ground arith

module _ {R : Type 0} where
  pub set_waiter-IsConsistent :
      (c : ℕ) (x : Waiter R) (s : Flight R)
      → Knows s x
      → IsConsistent s
      → IsConsistent (set_waiter c x s)
  unfolding set_waiter
  set_waiter-IsConsistent c x s k h = record {
    registered = h.registered;
    active = h.active;
    known = λ d. elim (Bool-cases (d == c)) [ inl e ↦ simp e k | inr e ↦ simp e (h.known d) ];
  }

  -- A waiter still knows what it knew when no flight is lost and none reopens.
  keep-Knows :
      (s t : Flight R) (x : Waiter R)
      → s.next ≤ t.next
      → ((id : ℕ) (r : R)
          → id < s.next
          → (s.flights id).stage ≡ closed r
          → (t.flights id).stage ≡ closed r)
      → Knows s x
      → Knows t x
  keep-Knows s t idle grows shut k = tt
  keep-Knows s t (waiting id) grows shut k = omega (arith, grows, k)
  keep-Knows s t (got id r) grows shut k = (omega (arith, grows, k.0), shut id r k.0 k.1)
  keep-Knows s t (left id) grows shut k = tt

  set_stage-closed :
      (id : ℕ) (x : Stage R) (s : Flight R)
      → ((r : R) → (s.flights id).stage ≢ closed r)
      → (j : ℕ) (r : R) → (s.flights j).stage ≡ closed r
      → ((set_stage id x s).flights j).stage ≡ closed r
  unfolding set_stage
  set_stage-closed id x s still j r at = elim (Bool-cases (j == id)) [
    | inl e ↦ absurd (still r (ap (λ i. (s.flights i).stage) (sym (eq_of_test j id e)) ∙ at))
    | inr e ↦ simp e at
  ]

  key-set_stage :
      (id : ℕ) (x : Stage R) (s : Flight R) (j : ℕ)
      → ((set_stage id x s).flights j).key ≡ (s.flights j).key
  unfolding set_stage
  key-set_stage id x s j = elim (Bool-cases (j == id)) [
    | inl e ↦ simp e (ap (λ i. (s.flights i).key) (sym (eq_of_test j id e)))
    | inr e ↦ simp e refl
  ]

  -- A stage that is as active as the one before it.
  active-set_stage :
      (id : ℕ) (x : Stage R) (s : Flight R)
      → is_active x ≡ is_active (s.flights id).stage
      → (j : ℕ) → is_active ((set_stage id x s).flights j).stage ≡ is_active (s.flights j).stage
  unfolding set_stage
  active-set_stage id x s same j = elim (Bool-cases (j == id)) [
    | inl e ↦ simp e (same ∙ ap (λ i. is_active (s.flights i).stage) (sym (eq_of_test j id e)))
    | inr e ↦ simp e refl
  ]

  pub set_stage-IsConsistent :
      (id : ℕ) (x : Stage R) (s : Flight R)
      → is_active x ≡ is_active (s.flights id).stage
      → ((r : R) → (s.flights id).stage ≢ closed r)
      → IsConsistent s
      → IsConsistent (set_stage id x s)
  unfolding set_stage
  set_stage-IsConsistent id x s same still h = record {
    registered = λ k j at.
        let reg = h.registered k j at in
        (reg.0, key-set_stage id x s j ∙ reg.1, active-set_stage id x s same j ∙ reg.2);
    active = λ j low act.
        ap (λ k. lookup k s.calls) (key-set_stage id x s j)
        ∙ h.active j low (sym (active-set_stage id x s same j) ∙ act);
    known = λ c.
        keep-Knows s (set_stage id x s) (s.waiters c) (omega arith)
          (λ j r low. set_stage-closed id x s still j r) (h.known c);
  }

  -- The holder takes its key out of the registry.
  pub remove-IsConsistent :
      (id : ℕ) (r : R) (s : Flight R)
      → id < s.next
      → (s.flights id).stage ≡ fetched r
      → IsConsistent s
      → IsConsistent (remove id (fetched r) s)
  unfolding remove set_stage
  remove-IsConsistent id r s low at h =
      let own : lookup (s.flights id).key s.calls ≡ some id = h.active id low (ap is_active at) in
      record {
        registered = λ k j held.
            let before : lookup k s.calls ≡ some j =
              ground (arith, lookup-delete k (s.flights id).key s.calls, held) in
            let reg = h.registered k j before in
            elim (Bool-cases (j == id)) [
              | inl e ↦
                  let same : (s.flights id).key ≡ k =
                    ap (λ i. (s.flights i).key) (sym (eq_of_test j id e)) ∙ reg.1 in
                  absurd (
                    ground (
                      arith,
                      lookup-delete k (s.flights id).key s.calls,
                      held,
                      (eq_iff (s.flights id).key k).1 same,
                    ))
              | inr e ↦ simp e reg
            ];
        active = λ j below act. elim (Bool-cases (j == id)) [
          | inl e ↦ absurd (false-true (simp e at act))
          | inr e ↦
              let old : lookup (s.flights j).key s.calls ≡ some j =
                h.active j below (simp e at act) in
              let apart : str_eq (s.flights id).key (s.flights j).key ≡ false =
                elim (Bool-cases (str_eq (s.flights id).key (s.flights j).key)) [
                  | inr other ↦ other
                  | inl eq ↦
                      let keys = (eq_iff (s.flights id).key (s.flights j).key).0 eq in
                      let ids : id ≡ j =
                        some-injective id j (sym own ∙ ap (λ k. lookup k s.calls) keys ∙ old) in
                      absurd (ground (arith, ids, e))
                ] in
              simp e (
                ground
                  (arith, lookup-delete (s.flights j).key (s.flights id).key s.calls, apart, old))
        ];
        known = λ c.
            keep-Knows s (remove id (fetched r) s) (s.waiters c) (omega arith)
              (λ j q below shut.
                set_stage-closed id (removed r) s (λ q' k. false-true (ap is_active (sym k ∙ at))) j
                  q shut)
              (h.known c);
      }

  -- A caller that finds no flight makes one.
  pub join-IsConsistent :
      (key : String) (c : ℕ) (s : Flight R)
      → lookup key s.calls ≡ none
      → IsConsistent s
      → IsConsistent (join key c none s)
  unfolding join
  join-IsConsistent key c s free h = record {
    registered = λ k j held. elim (Bool-cases (str_eq key k)) [
      | inl e ↦
          let newest : j ≡ s.next = ground (arith, lookup-insert k key s.next s.calls, held, e) in
          let test : (j == s.next) ≡ true = ground (arith, newest) in
          (omega (arith, newest), simp test ((eq_iff key k).0 e), simp test refl)
      | inr e ↦
          let before : lookup k s.calls ≡ some j =
            ground (arith, lookup-insert k key s.next s.calls, held, e) in
          let reg = h.registered k j before in
          let test : (j == s.next) ≡ false = ground (arith, reg.0) in
          (omega (arith, reg.0), simp test reg.1, simp test reg.2)
    ];
    active = λ j below act. elim (Bool-cases (j == s.next)) [
      | inl e ↦
          simp e
            (lookup-insert_self key s.next s.calls ∙ ap (λ i. some i) (sym (eq_of_test j s.next e)))
      | inr e ↦
          let old : lookup (s.flights j).key s.calls ≡ some j =
            h.active j (ground (arith, below, e)) (simp e at act) in
          let apart : str_eq key (s.flights j).key ≡ false =
            elim (Bool-cases (str_eq key (s.flights j).key)) [
              | inr other ↦ other
              | inl eq ↦ absurd (
                  none-ne-some j (
                    sym free
                    ∙ ap (λ k. lookup k s.calls) ((eq_iff key (s.flights j).key).0 eq)
                    ∙ old))
            ] in
          simp e (ground (arith, lookup-insert (s.flights j).key key s.next s.calls, apart, old))
    ];
    known = λ d.
        keep-Knows s (join key c none s) (s.waiters d) (omega arith)
          (λ j q low shut. let test : (j == s.next) ≡ false = ground (arith, low) in simp test shut)
          (h.known d);
  }
