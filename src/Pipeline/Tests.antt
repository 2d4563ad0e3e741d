-- ===== src/Pipeline/Tests.antt =====
-- The estimate of a request whose own limit is near the largest int64.
use breakwater.Base.{◌+◌, ◌≡◌, some, [], ◌∷◌, min, max, arith}
use breakwater.Base.Int.{pos}
use breakwater.Pipeline.Estimate.{
  estimate_tokens, estimate_tokens-exact, signed, signed_limit, total_of, completion_budget,
  max_int64,
}

estimate_tokens-exact_example :
    estimate_tokens (signed (5 ∷ 7 ∷ [])) (signed_limit (some max_int64)) (pos 0)
    ≡ pos (min (max (total_of (5 ∷ 7 ∷ [])) 1 + completion_budget (some max_int64) 0) max_int64)
estimate_tokens-exact_example =
    estimate_tokens-exact (5 ∷ 7 ∷ []) (some max_int64) 0 (omega arith) (omega arith)
