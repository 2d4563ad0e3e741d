-- ===== src/Pipeline/Estimate.antt =====
-- internal/pipeline/estimate.go: the tokens that a request reserves. The estimate of each message's
-- content, which protocol/tokens.go computes, is an argument.
use breakwater.Base.{
  ℕ, ◌+◌, ◌<◌, ◌^◌, ◌≡◌, refl, ap, ◌∙◌, Bool, false, ◌&&◌, List, [], ◌∷◌, Option, none, some, min,
  max, ◌==◌, if◌then◌else◌, arith,
}
use breakwater.Base.Int.{ℤ, pos, negsuc, int64, ◌+ℤ◌, ltb_ℤ}

abbrev pub default_completion_reserve : ℕ
default_completion_reserve = 256

abbrev pub max_int64 : ℕ
max_int64 = 9_223_372_036_854_775_807

sum_estimates : ℤ → List ℤ → ℤ
sum_estimates prompt [] = prompt
sum_estimates prompt (m ∷ messages) = sum_estimates (int64 (prompt +ℤ m)) messages

is_zero : ℤ → Bool
is_zero (pos n) = n == 0
is_zero (negsuc n) = false

-- `promptEstimate`.
pub prompt_estimate : List ℤ → ℤ
unfolding sum_estimates is_zero
prompt_estimate messages =
    let prompt = sum_estimates (pos 0) messages in if is_zero prompt then pos 1 else prompt

declared : Option ℤ → ℤ
declared none = pos default_completion_reserve
declared (some n) = if ltb_ℤ (pos 0) n then n else pos default_completion_reserve

-- `completionEstimate`, of the request's own limit and the tenant's.
pub completion_estimate : Option ℤ → ℤ → ℤ
unfolding declared
completion_estimate max_tokens max_request_tokens =
    let completion = declared max_tokens in
    if ltb_ℤ (pos 0) max_request_tokens && ltb_ℤ max_request_tokens completion
    then max_request_tokens
    else completion

pub add_saturating : ℤ → ℤ → ℤ
add_saturating a b = let sum = int64 (a +ℤ b) in if ltb_ℤ sum (pos 0) then pos max_int64 else sum

-- `EstimateTokens`.
pub estimate_tokens : List ℤ → Option ℤ → ℤ → ℤ
estimate_tokens messages max_tokens max_request_tokens =
    add_saturating (prompt_estimate messages) (completion_estimate max_tokens max_request_tokens)

-- Estimates that are not negative, as int64s.
abbrev pub signed : List ℕ → List ℤ
signed [] = []
signed (m ∷ messages) = pos m ∷ signed messages

abbrev pub signed_limit : Option ℕ → Option ℤ
signed_limit none = none
signed_limit (some n) = some (pos n)

-- The exact sum of the messages' estimates.
abbrev pub total_of : List ℕ → ℕ
total_of [] = 0
total_of (m ∷ messages) = m + total_of messages

int64_pos : (a b : ℕ) → a + b < 2 ^ 63 → int64 (pos a +ℤ pos b) ≡ pos (a + b)
unfolding int64 ◌+ℤ◌
int64_pos a b h = ground arith

sum_estimates-exact :
    (prompt : ℕ) (messages : List ℕ)
    → prompt + total_of messages < 2 ^ 63
    → sum_estimates (pos prompt) (signed messages) ≡ pos (prompt + total_of messages)
unfolding sum_estimates
sum_estimates-exact prompt [] h = let same : prompt + 0 ≡ prompt = omega arith in rw same refl
sum_estimates-exact prompt (m ∷ messages) h =
    let same : prompt + m + total_of messages ≡ prompt + (m + total_of messages) = omega arith in
    ap (λ x. sum_estimates x (signed messages)) (int64_pos prompt m (omega arith))
    ∙ sum_estimates-exact (prompt + m) messages (omega arith)
    ∙ ap pos same

prompt_estimate-exact :
    (messages : List ℕ)
    → total_of messages < 2 ^ 63
    → prompt_estimate (signed messages) ≡ pos (max (total_of messages) 1)
unfolding prompt_estimate is_zero
prompt_estimate-exact messages h = ground (arith, sum_estimates-exact 0 messages (omega arith))

add_saturating-exact :
    (a b : ℕ)
    → a < 2 ^ 63
    → b < 2 ^ 63
    → add_saturating (pos a) (pos b) ≡ pos (min (a + b) max_int64)
unfolding add_saturating int64 ◌+ℤ◌
add_saturating-exact a b h k = ground arith

abbrev pub or_reserve : Option ℕ → ℕ
or_reserve none = default_completion_reserve
or_reserve (some n) = if n == 0 then default_completion_reserve else n

-- The completion that the limit of the request and the one of the tenant leave, where 0 is no limit.
abbrev pub completion_budget : Option ℕ → ℕ → ℕ
completion_budget max_tokens max_request_tokens =
    if max_request_tokens == 0
    then or_reserve max_tokens
    else min (or_reserve max_tokens) max_request_tokens

completion_estimate-exact :
    (max_tokens : Option ℕ) (max_request_tokens : ℕ)
    → completion_estimate (signed_limit max_tokens) (pos max_request_tokens)
      ≡ pos (completion_budget max_tokens max_request_tokens)
unfolding completion_estimate declared
completion_estimate-exact none max_request_tokens = ground arith
completion_estimate-exact (some n) max_request_tokens = ground arith

-- Of message estimates that are not negative and whose sum is an int64, and of limits that are
-- not negative, the reservation is the exact sum of the prompt, at least one token, and the
-- completion budget, cut off at the largest int64; in particular it never wraps to a negative one.
pub estimate_tokens-exact :
    (messages : List ℕ) (max_tokens : Option ℕ) (max_request_tokens : ℕ)
    → total_of messages < 2 ^ 63
    → completion_budget max_tokens max_request_tokens < 2 ^ 63
    → estimate_tokens (signed messages) (signed_limit max_tokens) (pos max_request_tokens)
      ≡ pos (
          min
            (max (total_of messages) 1 + completion_budget max_tokens max_request_tokens)
            max_int64)
unfolding estimate_tokens
estimate_tokens-exact messages max_tokens max_request_tokens fits small =
    rw
      (prompt_estimate-exact messages fits, completion_estimate-exact max_tokens max_request_tokens)
      (add_saturating-exact (max (total_of messages) 1)
        (completion_budget max_tokens max_request_tokens) (omega (arith, fits)) small)
