-- ===== src/Lib.antt =====
-- Breakwater (README.md): an LLM gateway that guards calls to upstreams by circuit breakers, bounds
-- retries, limits rates and meters quotas. This library models its governance mechanisms, those of
-- the process-local backends, and proves what each promises. Names follow the Go code in snake case.
--
-- Conventions. An instant or a duration is a number of nanoseconds (Base: native naturals), and a
-- comparison of a difference of instants is written as a sum, so that a clock that steps backwards is
-- read as Go reads it. An int64 is an integer (Base.Int) whose sums wrap by `int64`; a map with text
-- keys is an association list (Base.Maps). A mutex makes each method one step, so an interleaving of
-- goroutines is a list of calls. What the clock, the random source and the range order of a map
-- deliver are arguments, and theorems hold for all of them.
--
-- Parts.
-- * Circuit (internal/circuit): Types is circuit.go; Machine is machine.go, the three-state skeleton
--   (`enter`, `reclaim`, `allow`, `observe`); Breaker is breaker.go, the consecutive-failure registry
--   (`allow_call` is Allow, `read_state` StateOf, `reset` Reset, `report` Report of a permission). The
--   router asks the registry before it picks an upstream, the relay reports each outcome. Slow is
--   slow.go, the slow-call registry over the same skeleton (`slow_allow`, `slow_report` and so on),
--   and SlowWindow its rolling window (`record_completion` is record, `share` share). Ratio is
--   ratio.go, the ratio-strategy registry and its window (`ratio_allow` is Allow, `ratio_report`
--   Report, `add_events` add, `history` history).
--   Port is the interface of circuit.go with the state machines as its instances, and Prober is
--   prober.go, a health check as a call through that port.
-- * Recovery (cmd/breakwater/recovery.go): the loop that probes what is out of rotation.
--   `recover_auto_disabled` works on the switch of Router, `revive_ejected` on a breaker.
-- * Affinity (internal/affinity): Trie is the trie of a model with its walks `match` and `record`,
--   Index the tries, their sweep and `pick`. A walk recurs on its chunks; the cut of a prompt into
--   chunks has the prompt's length as fuel, enough because each chunk takes a byte at least.
-- * Retry (internal/retry): Budget and Policy are retry.go and the backoff of loop.go, Classifier is
--   classifier.go, Loop the attempt loop (`execute` is Execute), which takes its slots from the budget
--   and asks the classifier about each failure.
-- * Relay (internal/relay): Plan is fallback.go (`target`, `advance`), Fatal is fatal.go, Exchange is
--   exchange.go (`exchange`, `exchange_buffered`, `exchange_stream`, `stash_upstream_error`), Attempt
--   and Executor are executor.go (`run_attempt` is attempt, `execute` Execute, `finish` finish), over
--   the state of Request. Execute runs the loop of Retry; the breaker, the bulkhead, the adapters, the
--   resolver and the hooks are records of operations.
-- * Upstream (internal/upstream): Credential is credential.go, the ring that an adapter picks its
--   credential from (`pick`, `retire`, `alive`, `revive`); the relay hands it the excluded ones.
-- * Auth (internal/auth): Lru is lru.go, the cache in front of the identity store (`resolve` is
--   Resolve, `lookup_key` lookup, `store` store). Limits is limits.go with the tier of auth.go
--   (`merge_tier` is MergeTier, `allows_model` AllowsModel).
-- * Limiter (internal/limiter): Concurrency is concurrency.go (`acquire`, and `release` of the handle
--   that stands for the release function, which `Requests` keeps with its flag); Memory is memory.go,
--   the token buckets.
-- * Router (internal/router): Control is control.go, the runtime switches over models and upstreams
--   (`set_model`, `set_upstream`, `auto_disable_upstream`, `auto_enable_upstream`), which the relay and
--   the recovery prober write. Priority is priority.go: `candidates` reads the switch and a breaker,
--   an interface of the reads that the selection makes, for each binding; `behind_port` puts a breaker
--   of Circuit behind it, with a clock that moves on between the reads.
-- * Cache (internal/cache): Memory is memory.go, the bounded store (`get`, `set`); the gate that
--   it asks whom to evict is a record of operations, which Admission fills (`admission_gate`), the
--   sketch and the doorkeeper of admission.go (`record_read`, `estimate`). Flight is singleflight.go: the steps of
--   holders and waiters (`join` to `close` are Do, `wake` and `leave` wait), run in any order. Stage
--   is middleware.go with eligibility.go, over that store: `cache_stage` is the handler of Middleware,
--   and takes the part that Flight gives a request as an argument.
-- * Pipeline (internal/pipeline): Estimate is estimate.go, the tokens that a request reserves from the
--   limiter and the ledger.
-- * Quota (internal/quota): Ledger is memory.go, with `reserve`, `settle`, `cancel`, `balance`,
--   `set_balance`, `ensure_balance` and `sweep_once`. Stage is middleware.go, over that ledger: it
--   reserves before a request and settles or cancels after it; the sweeper reclaims what neither ended.
--
-- Bounds and fuel: the sweep of the ledger stops at the code's own `scanBatch`, and the attempt loop
-- has the policy's number of attempts as fuel, enough because the code ends at the last attempt. The
-- doubling of the width of the admission gate has twenty-one steps, enough for the ceiling that its
-- budget is clamped to. Other loops recur on their list or on a count.
--
-- Not modelled: the Redis and PostgreSQL backends (scripts and queries of external stores), the HTTP
-- endpoints and the wiring in cmd/breakwater, logging and metrics output, the JSON codecs, and the
-- parts that no file here names (the latency tracker, the other stages of the pipeline, the byte
-- pump of a stream and its timers).
pub mod Base
pub mod Affinity
pub mod Auth
pub mod Cache
pub mod Circuit
pub mod Limiter
pub mod Pipeline
pub mod Quota
pub mod Recovery
pub mod Relay
pub mod Retry
pub mod Router
pub mod Upstream
