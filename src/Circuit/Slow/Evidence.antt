-- ===== src/Circuit/Slow/Evidence.antt =====
-- slow.go: which completions open a closed breaker.
use breakwater.Base.{
  ℕ, ◌+◌, ◌*◌, ◌≤◌, ◌<◌, ◌≡◌, refl, ap, ◌∙◌, false, List, [], ◌∷◌, none, String, length,
  lookup-insert_self, if◌then◌else◌, arith, inl, inr, Bool-cases,
}
use breakwater.Circuit.Types.{closed, opened, Outcome, gateway_terminated, Permission, Transition}
use breakwater.Circuit.Machine.{Guarded, Governor, enter}
use breakwater.Circuit.SlowWindow.{Window, slow_buckets, slow_bucket_span, record_completion, share}
use breakwater.Circuit.SlowWindow.Counts.{stale-share, share-record, record_completion-last_write}
use breakwater.Circuit.Slow.{
  SlowRegistry, Ratio, slow_state_of, store_slow, slow_report, slow_report_at, slow_report_closed,
  trips, is_slow_evidence, is_gateway_cut,
}

slow_state_of-store :
    (r : SlowRegistry) (id : String) (s : Guarded Window) (fired : List Transition) (stamp : ℕ)
    → slow_state_of (store_slow r id s fired) id stamp ≡ s
unfolding slow_state_of store_slow
slow_state_of-store r id s fired stamp = rw lookup-insert_self refl

-- What a closed breaker hands out.
abbrev pub plain_permission : String → Permission
plain_permission id = record { upstream_id = id; grant = none; reported = false }

report-state :
    (r : SlowRegistry) (id : String) (o : Outcome) (now stamp : ℕ)
    → (slow_state_of r id now).name ≡ closed
    → slow_state_of (slow_report r (plain_permission id) o now stamp).0 id now
      ≡ (slow_report_closed r.gov r.slow_ratio now stamp o (slow_state_of r id now)).0
unfolding slow_report slow_report_at
report-state r id o now stamp c = rw (slow_state_of-store, c) refl

enter_name :
    (g : Governor) (stamp : ℕ) (s : Guarded Window)
    → s.name ≡ closed
    → (enter g stamp opened (λ e. e) s).0.name ≡ opened
unfolding enter
enter_name g stamp s c = rw c refl

closed_name :
    (g : Governor) (ratio : Ratio) (o : Outcome) (now stamp : ℕ) (s : Guarded Window)
    → s.name ≡ closed
    → is_gateway_cut o ≡ false
    → (slow_report_closed g ratio now stamp o s).0.name ≡ (
        if trips ratio (share now (record_completion now (is_slow_evidence o) s.evidence))
        then opened
        else closed)
unfolding slow_report_closed
closed_name g ratio o now stamp s c evidence =
    let w = record_completion now (is_slow_evidence o) s.evidence in
    elim (Bool-cases (trips ratio (share now w))) [
      | inl e ↦ rw (evidence, e) (enter_name g stamp (record s { evidence = w }) c)
      | inr e ↦ rw (evidence, e) c
    ]

-- A completion that is health evidence and comes less than ten seconds after the window last rolled
-- on, with the window's position inside its forty buckets, opens a closed breaker exactly when the
-- window, with it, has the samples and the slow share.
pub report-trips :
    (r : SlowRegistry) (id : String) (o : Outcome) (now stamp : ℕ)
    → let s = slow_state_of r id now in
      s.name ≡ closed
      → is_gateway_cut o ≡ false
      → s.evidence.offset < slow_buckets
      → now < s.evidence.last_write + slow_buckets * slow_bucket_span
      → let held = share now s.evidence in
        (slow_state_of (slow_report r (plain_permission id) o now stamp).0 id now).name ≡ (
          if trips r.slow_ratio (held.0 + 1, held.1 + (if is_slow_evidence o then 1 else 0))
          then opened
          else closed)
report-trips r id o now stamp c evidence below turn =
    let s = slow_state_of r id now in
    let (total, slow_count) = share-record s.evidence now (is_slow_evidence o) below turn in
    ap (λ x. x.name) (report-state r id o now stamp c)
    ∙ closed_name r.gov r.slow_ratio o now stamp s c evidence
    ∙ ap (λ counts. if trips r.slow_ratio counts then opened else closed)
        (λ i. (total i, slow_count i))

-- The outcomes reported one after another at one time by calls that a closed breaker admitted.
abbrev pub burst : SlowRegistry → String → ℕ → List Outcome → SlowRegistry
burst r id now [] = r
burst r id now (o ∷ outcomes) =
    burst (slow_report r (plain_permission id) o now now).0 id now outcomes

stale_report :
    (g : Governor) (ratio : Ratio) (o : Outcome) (now : ℕ) (s : Guarded Window)
    → s.name ≡ closed
    → s.evidence.last_write + 2 * slow_buckets * slow_bucket_span ≤ now
    → let t = (slow_report_closed g ratio now now o s).0 in
      (t.name ≡ closed)
      × (t.evidence.last_write ≤ s.evidence.last_write + slow_buckets * slow_bucket_span)
unfolding slow_report_closed trips is_gateway_cut
stale_report g ratio gateway_terminated now s c idle = (c, omega arith)
stale_report g ratio o now s c idle =
    rw (stale-share s.evidence now (is_slow_evidence o) idle)
      (c, record_completion-last_write s.evidence now (is_slow_evidence o))

-- After a silence of ten seconds and ten more for every report, no reports at one time of calls that
-- a closed breaker admitted open it, server faults included.
burst_after_silence :
    (r : SlowRegistry) (id : String) (now : ℕ) (outcomes : List Outcome)
    → (slow_state_of r id now).name ≡ closed
    → (slow_state_of r id now).evidence.last_write
        + (length outcomes + 1) * (slow_buckets * slow_bucket_span)
      ≤ now
    → (slow_state_of (burst r id now outcomes) id now).name ≡ closed
burst_after_silence r id now [] c silence = c
burst_after_silence r id now (o ∷ outcomes) c silence =
    let (still, level) =
      stale_report r.gov r.slow_ratio o now (slow_state_of r id now) c (omega arith) in
    let next = report-state r id o now now c in
    burst_after_silence (slow_report r (plain_permission id) o now now).0 id now outcomes
      (rw next still) (rw next (omega (arith, level)))
