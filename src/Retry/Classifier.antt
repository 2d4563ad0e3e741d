-- ===== src/Retry/Classifier.antt =====
-- internal/retry/classifier.go: which attempt failures deserve another attempt, and for how long an
-- upstream asks to wait.
use breakwater.Base.{
  ℕ, suc, ◌*◌, ◌≤◌, ◌<◌, ◌≡◌, Bool, true, false, Option, none, some, String, min, leb, ltb, refl,
  ◌==◌, str_eq, ◌||◌, if◌then◌else◌, arith,
}
use breakwater.Base.Int.{ℤ, pos, negsuc, pos_part, neg_part, sub_ℕ, ltb_ℤ, int64}

-- `serial` stands for the pointer, by which such errors are told apart.
pub record StatusError : Type 0 where
  pub serial : ℕ
  pub status_code : ℕ
  pub retry_after : ℕ

-- An error chain by what `errors.Is` and `errors.As` answer of it: whether it wraps ErrCommitted,
-- context.Canceled or context.DeadlineExceeded, the relay's errCircuitOpen or errUpstreamSaturated,
-- or the error that the request has handed on to another credential; and the StatusError in it.
pub record Failure : Type 0 where
  pub committed : Bool
  pub canceled : Bool
  pub deadline_exceeded : Bool
  pub circuit_open : Bool
  pub saturated : Bool
  pub rotated : Bool
  pub status : Option StatusError

pub new_status_error : ℕ → ℕ → StatusError
new_status_error serial status_code = record {
  serial = serial;
  status_code = status_code;
  retry_after = 0;
}

stripped : Option StatusError → Option StatusError
stripped none = none
stripped (some s) = some (if ltb 0 s.retry_after then record s { retry_after = 0 } else s)

-- `StripRetryAfter`: the error as it stands after the write in place.
pub strip_retry_after : Failure → Failure
unfolding stripped
strip_retry_after f = record f { status = stripped f.status }

pub committed-strip_retry_after : (f : Failure) → (strip_retry_after f).committed ≡ f.committed
unfolding strip_retry_after
committed-strip_retry_after f = refl

retryable_status : Option StatusError → Bool
retryable_status none = true
retryable_status (some s) = s.status_code == 429 || leb 500 s.status_code

-- `Retryable` of the default classifier, on an error that is not nil.
unfoldable pub retryable : Failure → Bool
unfolding retryable_status
retryable f =
    if f.canceled then false else (if f.deadline_exceeded then true else retryable_status f.status)

hint_of : Option StatusError → ℕ
hint_of none = 0
hint_of (some s) = s.retry_after

-- `DelayHint`.
unfoldable pub delay_hint : Failure → ℕ
unfolding hint_of
delay_hint f = hint_of f.status

abbrev pub second : ℕ
second = 1_000_000_000

abbrev pub retry_after_cap : ℕ
retry_after_cap = 60 * second

-- `cappedRetryAfter`, of an int64 duration.
unfoldable pub capped_retry_after : ℤ → ℕ
capped_retry_after d = if ltb_ℤ (pos 0) d then min (pos_part d) retry_after_cap else 0

-- `time.Duration(secs) * time.Second`, which wraps.
abbrev pub seconds_duration : ℤ → ℤ
seconds_duration (pos n) = int64 (pos (n * second))
seconds_duration (negsuc n) = int64 (sub_ℕ 0 (suc n * second))

-- A whole count of seconds.
unfoldable pub of_seconds : ℤ → ℕ
unfolding capped_retry_after
of_seconds secs =
    if ltb_ℤ (pos 60) secs then retry_after_cap else capped_retry_after (seconds_duration secs)

-- The standard library's parsers and the floating point they yield.
pub record Parsers : Type 1 where
  pub Float : Type 0
  pub trim_space : String → String
  pub parse_int : String → Option ℤ
  pub parse_float : String → Option Float
  pub is_nan : Float → Bool
  pub exceeds : Float → ℕ → Bool
  pub to_nanoseconds : Float → ℤ
  pub parse_time : String → Option ℤ

module _ (p : Parsers) where
  open p use {
    Float, trim_space, parse_int, parse_float, is_nan, exceeds, to_nanoseconds, parse_time,
  }

  of_fraction : Float → ℕ
  of_fraction f =
      if is_nan f
      then 0
      else (if exceeds f 60 then retry_after_cap else capped_retry_after (to_nanoseconds f))

  -- `until t` is `t.Sub(now)`.
  of_date : (ℤ → ℤ) → Option ℤ → ℕ
  of_date until none = 0
  of_date until (some t) = capped_retry_after (until t)

  of_number : (ℤ → ℤ) → String → Option ℤ → Option Float → ℕ
  of_number until raw (some secs) f = of_seconds secs
  of_number until raw none (some f) = of_fraction f
  of_number until raw none none = of_date until (parse_time raw)

  -- `ParseRetryAfter`.
  pub parse_retry_after : String → (ℤ → ℤ) → ℕ
  parse_retry_after text until =
      let raw = trim_space text in
      if str_eq raw "" then 0 else of_number until raw (parse_int raw) (parse_float raw)

capped_retry_after-le : (d : ℤ) → capped_retry_after d ≤ retry_after_cap
unfolding capped_retry_after
capped_retry_after-le d = ground arith

of_seconds-le : (secs : ℤ) → of_seconds secs ≤ retry_after_cap
unfolding of_seconds
of_seconds-le secs = ground arith

module _ (p : Parsers) where
  of_number-le :
      (until : ℤ → ℤ) (raw : String) (n : Option ℤ) (f : Option (p.Float))
      → of_number p until raw n f ≤ retry_after_cap
  unfolding of_number of_fraction of_date
  of_number-le until raw (some secs) f = of_seconds-le secs
  of_number-le until raw none (some f) = ground (arith, capped_retry_after-le (p.to_nanoseconds f))
  of_number-le until raw none none = of_date-le (p.parse_time raw)
    where
      of_date-le : (t : Option ℤ) → of_date p until t ≤ retry_after_cap
      of_date-le none = omega arith
      of_date-le (some t) = capped_retry_after-le (until t)

  -- Whatever a Retry-After header says and however it parses, the wait is at most a minute.
  parse_retry_after-le-cap :
      (text : String) (until : ℤ → ℤ) → parse_retry_after p text until ≤ retry_after_cap
  unfolding parse_retry_after
  parse_retry_after-le-cap text until =
      let raw = p.trim_space text in
      ground (arith, of_number-le until raw (p.parse_int raw) (p.parse_float raw))

-- A count of seconds whose nanoseconds fit an int64 reads as documented: none when it is not
-- positive, else itself up to a minute.
of_seconds_exact :
    (secs : ℤ)
    → neg_part secs ≤ 9_223_372_036
    → of_seconds secs ≡ min (pos_part secs * second) retry_after_cap
unfolding of_seconds int64
of_seconds_exact (pos n) h = ground arith
of_seconds_exact (negsuc n) h = ground arith

-- Below that range the product wraps to a positive duration, so an absurdly negative count is read
-- as a wait and not as no hint.
pub of_seconds_wraps : (n : ℕ) → 9_223_372_036 ≤ n → n < 18_446_744_073 → 0 < of_seconds (negsuc n)
unfolding of_seconds int64
of_seconds_wraps n h k = ground arith

-- Without its hint an error asks for no wait, deserves another attempt as before, and is stripped no
-- further.
strip_retry_after-hint :
    (f : Failure)
    → (delay_hint (strip_retry_after f) ≡ 0)
      × (retryable (strip_retry_after f) ≡ retryable f)
      × (strip_retry_after (strip_retry_after f) ≡ strip_retry_after f)
unfolding strip_retry_after delay_hint hint_of retryable retryable_status
strip_retry_after-hint f = go f.status refl
  where
    go :
        (o : Option StatusError)
        → f.status ≡ o
        → (delay_hint (strip_retry_after f) ≡ 0)
          × (retryable (strip_retry_after f) ≡ retryable f)
          × (strip_retry_after (strip_retry_after f) ≡ strip_retry_after f)
    go none e = rw e (ground arith)
    go (some s) e = rw e (ground arith, ground arith, ground arith)
