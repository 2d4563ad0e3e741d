-- ===== src/Circuit/Ratio/ForcedPass.antt =====
-- ratio.go: how long, and on what evidence, the ratio guard denies.
use breakwater.Base.{
  ℕ, ◌+◌, ◌*◌, ◌<◌, ◌≤◌, ◌≡◌, sym, ap, ◌∙◌, true, false, Bool-cases, mul_mono, inl, inr, List, [],
  ◌∷◌, ◌++◌, none, some, String, arith,
}
use breakwater.Circuit.Ratio.{
  RatioRegistry, RatioState, RatioHistory, Draw, ratio_state_of, ratio_allow, ratio_report, history,
  decide, guards, weight, is_pass_due,
}
use breakwater.Circuit.Ratio.Runs.{
  RatioOp, allows, reports, ratio_step, ratio_run, is_admitted, admission, admissions, is_recent,
  is_recent_append, is_recent_among,
}
use breakwater.Circuit.Ratio.LastPass.{allow-decide, allow-last_pass, report-last_pass}

decide-denied :
    (d : Draw) (now : ℕ) (s : RatioState)
    → (decide d now s).1 ≡ false
    → (guards (history now s) ≡ true) × (is_pass_due now s.last_pass ≡ false)
unfolding decide
decide-denied d now s denied =
    let h = history now s in
    elim (Bool-cases (guards h)) [
      | inr e ↦ ground arith
      | inl e ↦ elim (Bool-cases (is_pass_due now s.last_pass)) [
        | inl due ↦ ground arith
        | inr early ↦ (e, early)
      ]
    ]

weight_floor : (h : RatioHistory) → 110 ≤ weight h
unfolding weight
weight_floor h = ground arith

guards_evidence : (h : RatioHistory) → guards h ≡ true → 500 + 110 * h.accepts < 100 * h.total
unfolding guards
guards_evidence h g =
    let least = mul_mono 110 (weight h) h.accepts (weight_floor h) in ground (arith, g, least)

-- Once a call of the upstream got past a guard that denies, at `t`, a later call is denied only where
-- some call of it was admitted, at `t` or since, less than the forced-pass interval before: over any
-- calls and reports of any upstreams, whatever is drawn, no full interval is cut off. And it is denied
-- only on evidence: the events that the window holds, the guard's own denials included, are more than
-- five and eleven tenths of the healthy answers.
pub pass_within_interval :
    (r : RatioRegistry) (id : String) (ops : List RatioOp) (d : Draw) (t now : ℕ)
    → (ratio_state_of r id now).last_pass ≡ some t
    → (ratio_allow (ratio_run r ops) id d now).1 ≡ none
    → let h = history now (ratio_state_of (ratio_run r ops) id now) in
      (is_recent now (t ∷ admissions r id ops) ≡ true) × (50 + 11 * h.accepts < 10 * h.total)
unfolding ratio_run ratio_step admissions is_recent is_pass_due admission
pass_within_interval r id [] d t now passed denied =
    let (g, early) =
      decide-denied d now (ratio_state_of r id now)
        (sym (allow-decide r id d now).1 ∙ ap is_admitted denied) in
    let recent : is_pass_due now (some t) ≡ false = ap (is_pass_due now) (sym passed) ∙ early in
    let evidence = guards_evidence (history now (ratio_state_of r id now)) g in
    (ground (arith, recent), omega (arith, evidence))
pass_within_interval r id (allows j e m ∷ ops) d t now passed denied =
    elim (allow-last_pass r j id e m now) [
      | inl kept ↦
          let (recent, evidence) =
            pass_within_interval (ratio_allow r j e m).0 id ops d t now (kept ∙ passed) denied in
          (
            is_recent_among now t (admission r id (allows j e m))
                (admissions (ratio_allow r j e m).0 id ops) recent,
            evidence,
          )
      | inr (renewed, listed) ↦
          let later = admissions (ratio_allow r j e m).0 id ops in
          let (recent, evidence) =
            pass_within_interval (ratio_allow r j e m).0 id ops d m now renewed denied in
          (
            is_recent_append now (t ∷ []) (admission r id (allows j e m) ++ later)
                (rw listed recent),
            evidence,
          )
    ]
pass_within_interval r id (reports p o m ∷ ops) d t now passed denied =
    pass_within_interval (ratio_report r p o m).0 id ops d t now
      (report-last_pass r p id o m now ∙ passed) denied
