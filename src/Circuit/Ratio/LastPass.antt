-- ===== src/Circuit/Ratio/LastPass.antt =====
-- ratio.go: what moves the forced-pass cursor of an upstream.
use breakwater.Base.{
  ℕ, ◌⊎◌, ◌≡◌, refl, ap, ◌∙◌, true, Bool-cases, Option-cases, eq_iff, lookup-insert, inl, inr, [],
  ◌∷◌, some, String, str_eq, lookup, ltb, if◌then◌else◌,
}
use breakwater.Circuit.Types.{
  Outcome, success, client_fault, server_fault, slow, gateway_terminated,
}
use breakwater.Circuit.Ratio.{
  RatioRegistry, RatioPermission, RatioState, Draw, ratio_state_of, ratio_allow, ratio_report,
  history, decide, guards, draws_denial, is_pass_due, store_ratio, record_outcome, add_events, roll,
  held_or_fresh,
}
use breakwater.Circuit.Ratio.Runs.{allows, is_admitted, admission}

-- The state passed on: the last pass is as it was, or the call is admitted and it is now.
decide-last_pass :
    (d : Draw) (now : ℕ) (s : RatioState)
    → ((decide d now s).0.last_pass ≡ s.last_pass)
      ⊎ (((decide d now s).0.last_pass ≡ some now) × ((decide d now s).1 ≡ true))
unfolding decide add_events roll
decide-last_pass d now s =
    let h = history now s in
    elim (Bool-cases (guards h)) [
      | inr e ↦ rw e (inl refl)
      | inl e ↦ elim (Bool-cases (is_pass_due now s.last_pass)) [
        | inl due ↦ rw (e, due) (inr (refl, refl))
        | inr early ↦ elim (Bool-cases (draws_denial d h)) [
          | inl drawn ↦ elim (Bool-cases (ltb s.last_write now)) [
            | inl later ↦ rw (e, early, drawn, later) (inl refl)
            | inr level ↦ rw (e, early, drawn, level) (inl refl)
          ]
          | inr spared ↦ rw (e, early, spared) (inr (refl, refl))
        ]
      ]
    ]

add_events-last_pass :
    (now healthy failed dropped : ℕ) (s : RatioState)
    → (add_events now healthy failed dropped s).last_pass ≡ s.last_pass
unfolding add_events roll
add_events-last_pass now healthy failed dropped s = elim (Bool-cases (ltb s.last_write now)) [
  | inl later ↦ rw later refl
  | inr level ↦ rw level refl
]

record_outcome-last_pass :
    (o : Outcome) (now : ℕ) (s : RatioState) → (record_outcome o now s).last_pass ≡ s.last_pass
unfolding record_outcome
record_outcome-last_pass success now s = add_events-last_pass now 1 0 0 s
record_outcome-last_pass client_fault now s = add_events-last_pass now 1 0 0 s
record_outcome-last_pass slow now s = add_events-last_pass now 1 0 0 s
record_outcome-last_pass server_fault now s = add_events-last_pass now 0 1 0 s
record_outcome-last_pass gateway_terminated now s = refl

-- The last pass read from the registry does not depend on the time a missing state is created at.
last_pass_stamp :
    (r : RatioRegistry) (id : String) (m n : ℕ)
    → (ratio_state_of r id m).last_pass ≡ (ratio_state_of r id n).last_pass
unfolding ratio_state_of held_or_fresh
last_pass_stamp r id m n = elim (Option-cases (lookup id r.by_upstream)) [
  | inl e ↦ rw e refl
  | inr (s, e) ↦ rw e refl
]

store_ratio-last_pass :
    (r : RatioRegistry) (j id : String) (s : RatioState) (now : ℕ)
    → (ratio_state_of (store_ratio r j s) id now).last_pass
      ≡ (if str_eq j id then s.last_pass else (ratio_state_of r id now).last_pass)
unfolding ratio_state_of held_or_fresh store_ratio
store_ratio-last_pass r j id s now = elim (Bool-cases (str_eq j id)) [
  | inl e ↦ rw (lookup-insert, e) refl
  | inr e ↦ rw (lookup-insert, e) refl
]

-- The state and the answer of `Allow` are those of the decision on the upstream's state.
pub allow-decide :
    (r : RatioRegistry) (id : String) (d : Draw) (now : ℕ)
    → let decided = decide d now (ratio_state_of r id now) in
      ((ratio_allow r id d now).0.by_upstream ≡ (store_ratio r id decided.0).by_upstream)
      × (is_admitted (ratio_allow r id d now).1 ≡ decided.1)
unfolding ratio_allow
allow-decide r id d now = elim (Bool-cases (decide d now (ratio_state_of r id now)).1) [
  | inl e ↦ rw e (refl, refl)
  | inr e ↦ rw e (refl, refl)
]

same_map :
    (r q : RatioRegistry) (id : String) (now : ℕ)
    → r.by_upstream ≡ q.by_upstream
    → ratio_state_of r id now ≡ ratio_state_of q id now
unfolding ratio_state_of
same_map r q id now same = ap (λ m. held_or_fresh id now (lookup id m)) same

allow-after :
    (r : RatioRegistry) (j id : String) (d : Draw) (m now : ℕ)
    → (ratio_state_of (ratio_allow r j d m).0 id now).last_pass ≡ (
        if str_eq j id
        then (decide d m (ratio_state_of r j m)).0.last_pass
        else (ratio_state_of r id now).last_pass)
allow-after r j id d m now =
    let t = (decide d m (ratio_state_of r j m)).0 in
    ap (λ s. s.last_pass)
      (same_map (ratio_allow r j d m).0 (store_ratio r j t) id now (allow-decide r j d m).0)
    ∙ store_ratio-last_pass r j id t now

-- What a call does to the last pass of an upstream: nothing, or it is an admitted call of it.
pub allow-last_pass :
    (r : RatioRegistry) (j id : String) (d : Draw) (m now : ℕ)
    → ((ratio_state_of (ratio_allow r j d m).0 id now).last_pass
        ≡ (ratio_state_of r id now).last_pass)
      ⊎ (((ratio_state_of (ratio_allow r j d m).0 id now).last_pass ≡ some m)
          × (admission r id (allows j d m) ≡ m ∷ []))
unfolding admission
allow-last_pass r j id d m now =
    let after = allow-after r j id d m now in
    let answer = (allow-decide r j d m).1 in
    elim (Bool-cases (str_eq j id)) [
      | inr e ↦ inl (after ∙ rw e refl)
      | inl e ↦
          let own : (ratio_state_of (ratio_allow r j d m).0 id now).last_pass
              ≡ (decide d m (ratio_state_of r j m)).0.last_pass =
            after ∙ rw e refl in
          elim (decide-last_pass d m (ratio_state_of r j m)) [
            | inl kept ↦
                let same : (ratio_state_of r j m).last_pass ≡ (ratio_state_of r id now).last_pass =
                  rw ((eq_iff j id).0 e) (last_pass_stamp r id m now) in
                inl (own ∙ kept ∙ same)
            | inr (passed, admitted) ↦
                let granted = answer ∙ admitted in inr (own ∙ passed, rw (e, granted) refl)
          ]
    ]

pub report-last_pass :
    (r : RatioRegistry) (p : RatioPermission) (id : String) (o : Outcome) (m now : ℕ)
    → (ratio_state_of (ratio_report r p o m).0 id now).last_pass
      ≡ (ratio_state_of r id now).last_pass
unfolding ratio_report
report-last_pass r p id o m now = elim (Bool-cases p.reported) [
  | inl e ↦ rw e refl
  | inr e ↦
      let j = p.upstream_id in
      let s = ratio_state_of r j m in
      let after = store_ratio-last_pass r j id (record_outcome o m s) now in
      elim (Bool-cases (str_eq j id)) [
        | inr other ↦ rw e (after ∙ rw other refl)
        | inl own ↦
            let same : s.last_pass ≡ (ratio_state_of r id now).last_pass =
              rw ((eq_iff j id).0 own) (last_pass_stamp r id m now) in
            rw e (after ∙ rw own (record_outcome-last_pass o m s ∙ same))
      ]
]
