-- ===== src/Circuit/Ratio.antt =====
-- internal/circuit/ratio.go: the ratio-strategy registry. The array of forty buckets is a function of
-- the index and its counters, which a window of ten seconds keeps far below 2 ^ 63, are natural
-- numbers. A state is never dropped from the map, so a permission's pointer to it is the upstream's
-- name. The mutex makes each operation one step. The draw of the random source is an argument.
pub mod Runs
pub mod LastPass
pub mod ForcedPass
mod Tests
use breakwater.Base.{
  ℕ, zero, suc, ◌+◌, ◌-◌, ◌*◌, ◌/◌, ◌%◌, ◌==◌, Bool, true, false, List, [], ◌∷◌, ◌++◌, Option, none,
  some, String, Assoc, lookup, insert, min, ltb, leb, if◌then◌else◌,
}
use breakwater.Circuit.Types.{
  State, closed, Outcome, success, client_fault, server_fault, slow, gateway_terminated,
}

abbrev pub ratio_buckets : ℕ
ratio_buckets = 40

-- 250 milliseconds.
abbrev pub ratio_bucket_span : ℕ
ratio_bucket_span = 250_000_000

abbrev pub ratio_protection : ℕ
ratio_protection = 5

-- One second.
abbrev pub ratio_force_pass : ℕ
ratio_force_pass = 1_000_000_000

pub record RatioBucket : Type 0 where
  pub success : ℕ
  pub failure : ℕ
  pub drop : ℕ

abbrev pub blank : RatioBucket
blank = record { success = 0; failure = 0; drop = 0 }

-- `last_pass` is `none` for the zero time.
pub record RatioState : Type 0 where
  pub id : String
  pub buckets : ℕ → RatioBucket
  pub offset : ℕ
  pub last_write : ℕ
  pub last_pass : Option ℕ

pub record RatioHistory : Type 0 where
  pub total : ℕ
  pub accepts : ℕ
  pub failing_buckets : ℕ
  pub working_buckets : ℕ

-- `denials` lists the calls of the observer.
pub record RatioRegistry : Type 0 where
  pub by_upstream : Assoc RatioState
  pub observed : Bool
  pub denials : List String

pub record RatioPermission : Type 0 where
  pub upstream_id : String
  pub reported : Bool

-- A draw of the random source as a fraction.
pub record Draw : Type 0 where
  pub num : ℕ
  pub den : ℕ

pub new_ratio_registry : Bool → RatioRegistry
new_ratio_registry observed = record { by_upstream = []; observed = observed; denials = [] }

abbrev set_ratio_bucket : ℕ → RatioBucket → (ℕ → RatioBucket) → ℕ → RatioBucket
set_ratio_bucket i b buckets j = if i == j then b else buckets j

-- The loop of `roll`: the `n` buckets after the offset are emptied.
pub blank_next : ℕ → ℕ → (ℕ → RatioBucket) → ℕ → RatioBucket
blank_next zero offset buckets = buckets
blank_next (suc n) offset buckets =
    set_ratio_bucket ((offset + suc n) % ratio_buckets) blank (blank_next n offset buckets)

pub roll : ℕ → RatioState → RatioState
roll now s =
    if ltb s.last_write now
    then (let span = min ((now - s.last_write) / ratio_bucket_span) ratio_buckets in
        record s {
          buckets = blank_next span s.offset s.buckets;
          offset = (s.offset + span) % ratio_buckets;
          last_write = s.last_write + span * ratio_bucket_span;
        })
    else s

abbrev tally : ℕ → ℕ → ℕ → RatioBucket → RatioBucket
tally healthy failed dropped b = record {
  success = b.success + healthy;
  failure = b.failure + failed;
  drop = b.drop + dropped;
}

-- `add`.
pub add_events : ℕ → ℕ → ℕ → ℕ → RatioState → RatioState
add_events now healthy failed dropped s =
    let t = roll now s in
    record t {
      buckets =
          set_ratio_bucket t.offset (tally healthy failed dropped (t.buckets t.offset)) t.buckets;
    }

-- The body of the loop of `history`.
pub add_bucket : RatioBucket → RatioHistory → RatioHistory
add_bucket b h = record {
  total = h.total + (b.success + b.failure + b.drop);
  accepts = h.accepts + b.success;
  failing_buckets =
      if ltb 0 b.success
      then 0
      else (if ltb 0 b.failure then h.failing_buckets + 1 else h.failing_buckets);
  working_buckets =
      if ltb 0 b.failure
      then 0
      else (if ltb 0 b.success then h.working_buckets + 1 else h.working_buckets);
}

pub walk_buckets : ℕ → ℕ → (ℕ → RatioBucket) → RatioHistory
walk_buckets zero start buckets = record {
  total = 0;
  accepts = 0;
  failing_buckets = 0;
  working_buckets = 0;
}
walk_buckets (suc n) start buckets =
    add_bucket (buckets ((start + n) % ratio_buckets)) (walk_buckets n start buckets)

pub history : ℕ → RatioState → RatioHistory
history now s =
    let span = (now - s.last_write) / ratio_bucket_span in
    walk_buckets (ratio_buckets - span) ((s.offset + span + 1) % ratio_buckets) s.buckets

abbrev fresh_ratio : String → ℕ → RatioState
fresh_ratio id now = record {
  id = id;
  buckets = λ i. blank;
  offset = 0;
  last_write = now;
  last_pass = none;
}

held_or_fresh : String → ℕ → Option RatioState → RatioState
held_or_fresh id now none = fresh_ratio id now
held_or_fresh id now (some s) = s

-- `stateOf`: a missing state is created aligned to now.
pub ratio_state_of : RatioRegistry → String → ℕ → RatioState
unfolding held_or_fresh
ratio_state_of r id now = held_or_fresh id now (lookup id r.by_upstream)

pub store_ratio : RatioRegistry → String → RatioState → RatioRegistry
store_ratio r id s = record r { by_upstream = insert id s r.by_upstream }

-- A hundred times the weight of an accepted call.
pub weight : RatioHistory → ℕ
weight h = if ltb 110 (150 - h.failing_buckets) then 150 - h.failing_buckets else 110

-- The deny ratio is positive. The code computes it in floating point, the model in whole hundredths.
pub guards : RatioHistory → Bool
guards h = ltb (100 * ratio_protection + weight h * h.accepts) (100 * h.total)

-- The draw lies below the deny ratio, diluted by the healthy buckets.
pub draws_denial : Draw → RatioHistory → Bool
draws_denial d h = ltb (d.num * (100 * (h.total + 1)) * ratio_buckets) (
    (100 * h.total - (100 * ratio_protection + weight h * h.accepts))
    * (ratio_buckets - h.working_buckets)
    * d.den)

-- The forced-pass interval has passed since the last admission of a denying guard.
pub is_pass_due : ℕ → Option ℕ → Bool
is_pass_due now none = false
is_pass_due now (some t) = leb (t + ratio_force_pass) now

abbrev pub ratio_permission : String → RatioPermission
ratio_permission id = record { upstream_id = id; reported = false }

-- The state after `Allow`, and whether the call is admitted.
pub decide : Draw → ℕ → RatioState → RatioState × Bool
decide d now s =
    let h = history now s in
    let passed = record s { last_pass = some now } in
    if guards h
    then (if is_pass_due now s.last_pass
        then (passed, true)
        else (if draws_denial d h then (add_events now 0 0 1 s, false) else (passed, true)))
    else (s, true)

-- `Allow`: `none` is a denial.
pub ratio_allow : RatioRegistry → String → Draw → ℕ → RatioRegistry × Option RatioPermission
ratio_allow r id d now =
    let s = ratio_state_of r id now in
    let (t, admitted) = decide d now s in
    let stored = store_ratio r id t in
    if admitted then (stored, some (ratio_permission id)) else (
      record stored { denials = if r.observed then r.denials ++ s.id ∷ [] else r.denials },
      none,
    )

-- `StateOf`.
pub ratio_read_state : RatioRegistry → String → State
ratio_read_state r id = closed

-- `Reset`.
pub ratio_reset : RatioRegistry → String → ℕ → RatioRegistry
ratio_reset r id now = store_ratio r id (fresh_ratio (ratio_state_of r id now).id now)

-- The switch of `Report`.
pub record_outcome : Outcome → ℕ → RatioState → RatioState
record_outcome success now s = add_events now 1 0 0 s
record_outcome client_fault now s = add_events now 1 0 0 s
record_outcome slow now s = add_events now 1 0 0 s
record_outcome server_fault now s = add_events now 0 1 0 s
record_outcome gateway_terminated now s = s

-- `Report`.
pub ratio_report : RatioRegistry → RatioPermission → Outcome → ℕ → RatioRegistry × RatioPermission
ratio_report r p outcome now = if p.reported then (r, p) else (
  store_ratio r p.upstream_id (record_outcome outcome now (ratio_state_of r p.upstream_id now)),
  record p { reported = true },
)
