-- ===== src/Cache/Admission/Tests.antt =====
-- A gate of width eight: two reads of one key among others, after one before.
use breakwater.Base.{◌+◌, ◌≤◌, ◌<◌, ◌≡◌, refl, [], ◌∷◌, min, arith}
use breakwater.Cache.Admission.{
  new_admission, admission_width, doubled_width, capped_keys, estimate,
}
use breakwater.Cache.Admission.Counts.{record_read_ages}
use breakwater.Cache.Admission.Reads.{run, reads_of, run-estimate}

width : admission_width 8 ≡ 8
unfolding admission_width doubled_width capped_keys
width = refl

young : (run (9 ∷ []) (new_admission 8)).incrs + 3 < (run (9 ∷ []) (new_admission 8)).reset_at
unfolding run new_admission
young =
    let (up, still) = record_read_ages (new_admission 8) (omega (arith, width)) 9 in
    omega (arith, up, still, width)

run-estimate_example :
    let a = run (5 ∷ 7 ∷ 5 ∷ []) (run (9 ∷ []) (new_admission 8)) in
    (min (reads_of 5 (5 ∷ 7 ∷ 5 ∷ [])) 16 ≤ estimate 5 a) × (estimate 5 a ≤ 16)
run-estimate_example = run-estimate 8 5 (9 ∷ []) (5 ∷ 7 ∷ 5 ∷ []) young
