-- ===== src/Retry/Budget.antt =====
-- internal/retry/retry.go: the process-wide budget of in-flight retries. The count of requests in
-- flight is small enough that its product with a percentage fits an int64.
use breakwater.Base.{
  ℕ, ◌+◌, ◌-◌, ◌*◌, ◌/◌, ◌≤◌, ◌≡◌, Bool, true, false, List, [], ◌∷◌, max, Result, ok, err, ltb, leb,
  ◌==◌, if◌then◌else◌, ◌||◌, arith,
}

-- `percent` 0 selects the static cap `limit`.
pub record Budget : Type 0 where
  pub in_flight : ℕ
  pub limit : ℕ
  pub percent : ℕ
  pub min_in_flight : ℕ

pub new_budget : ℕ → Budget
new_budget max_in_flight = record {
  in_flight = 0;
  limit = max_in_flight;
  percent = 0;
  min_in_flight = 0;
}

pub data ShareError : Type 0 where
  percent_out_of_range minimum_too_small : ShareError

unfoldable pub new_share_budget : ℕ → ℕ → Result ShareError Budget
new_share_budget percent min_in_flight =
    if percent == 0 || ltb 100 percent
    then err percent_out_of_range
    else (if ltb min_in_flight 1
        then err minimum_too_small
        else ok
            (record { in_flight = 0; limit = 0; percent = percent; min_in_flight = min_in_flight }))

-- `cap`, of the requests that are in flight across the process.
unfoldable pub cap_of : Budget → ℕ → ℕ
cap_of b total = if b.percent == 0 then b.limit else max b.min_in_flight (b.percent * total / 100)

unfoldable pub acquire : Budget → ℕ → Budget × Bool
unfolding cap_of
acquire b total =
    if leb (cap_of b total) b.in_flight
    then (b, false)
    else (record b { in_flight = b.in_flight + 1 }, true)

unfoldable pub release : Budget → Budget
release b = if ltb 0 b.in_flight then record b { in_flight = b.in_flight - 1 } else b

-- One call by any of the requests, with the traffic at that moment.
pub data Call : Type 0 where
  acquires : ℕ → Call
  releases : Call

pub step : Budget → Call → Budget
step b (acquires total) = (acquire b total).0
step b releases = release b

pub run : Budget → List Call → Budget
run b [] = b
run b (c ∷ calls) = run (step b c) calls

-- The traffic never exceeds a level during the calls.
abbrev pub Under : ℕ → List Call → Type 0
Under level [] = Unit {0}
Under level (acquires total ∷ calls) = (total ≤ level) × Under level calls
Under level (releases ∷ calls) = Under level calls

cap_mono : (b : Budget) (x y : ℕ) → x ≤ y → cap_of b x ≤ cap_of b y
unfolding cap_of
cap_mono b x y h =
    let product : b.percent * x ≤ b.percent * y = grind arith in ground (arith, product)

cap_of-step : (b : Budget) (c : Call) (level : ℕ) → cap_of (step b c) level ≡ cap_of b level
unfolding step cap_of acquire release
cap_of-step b c level = ground arith

acquire-le-cap :
    (b : Budget) (total level : ℕ)
    → total ≤ level
    → b.in_flight ≤ cap_of b level
    → (acquire b total).0.in_flight ≤ cap_of b level
unfolding acquire
acquire-le-cap b total level h k = ground (arith, cap_mono b total level h)

release-le : (b : Budget) → (release b).in_flight ≤ b.in_flight
unfolding release
release-le b = ground arith

-- However the requests interleave, the retries in flight never pass the cap of the highest traffic.
pub run-le-cap :
    (b : Budget) (calls : List Call) (level : ℕ)
    → Under level calls
    → b.in_flight ≤ cap_of b level
    → (run b calls).in_flight ≤ cap_of b level
unfolding run
run-le-cap b [] level u h = h
run-le-cap b (acquires total ∷ calls) level u h =
    let same = cap_of-step b (acquires total) level in
    let kept = acquire-le-cap b total level u.0 h in
    rw (← same)
      (run-le-cap (step b (acquires total)) calls level u.1 (rw same (unfold step in kept)))
run-le-cap b (releases ∷ calls) level u h =
    let same = cap_of-step b releases level in
    let kept = release-le b in
    rw (← same)
      (run-le-cap (step b releases) calls level u (rw same (unfold step in (omega (arith, kept)))))
