-- ===== src/Cache/Stage/Tests.antt =====
-- The stage on a chain that answers one short response, over the empty store with its gate.
use breakwater.Base.{
  inl, ℕ, ◌+◌, ◌==◌, ◌≤◌, ◌<◌, ◌≡◌, refl, false, true, Bool, ◌&&◌, inr, ◌⊎◌, List, [], ◌∷◌, none,
  some, String, lookup, size, length, arith,
}
use breakwater.Base.Int.{pos}
use breakwater.Cache.Admission.{Admission, admission_gate, new_admission}
use breakwater.Cache.Memory.{
  Gate, Memory, new_memory, get, swept, is_due, live, sweep_locked, clamped_ttl,
}
use breakwater.Cache.Memory.Reads.{read_all}
use breakwater.Cache.Stage.{
  Carrier, Entry, Tee, Request, starts, replayed, eligible, capture, cache_stage,
}
use breakwater.Cache.Stage.Replayed.{hit_after_fetch, IsCacheable}
use breakwater.Cache.Stage.Stored.{stored_whole, IsKept}

abbrev gate : Gate
gate = admission_gate (λ key. 5)

abbrev is_zero : ℕ → Bool
is_zero n = n == 0

abbrev is_one : ℕ → Bool
is_one n = n == 1

abbrev digest : List ℕ → String
digest body = "k"

abbrev memory : Memory (Entry ℕ) Admission
memory = new_memory 2 (new_admission 16)

abbrev asked : Carrier ℕ
asked = record {
  canonical = true;
  chat = record { temperature = some 0; top_p = none; n = some (pos 1); stream = false };
  body = 7 ∷ 8 ∷ [];
  consumed = pos 40;
  cache_hit = false;
  served_by = "";
  relay = none;
}

abbrev answer : Tee ℕ
answer = record { status = 200; header = 5; body = 1 ∷ 2 ∷ []; truncated = false }

abbrev first : Request ℕ ℕ
first = record {
  next = λ c. (record c { relay = some (record { upstream_id = "a"; aborted = false }) }, answer);
  part = starts;
  gone = false;
  read_at = 100;
  stored_at = 150;
  scaled = λ ttl. ttl;
  sweep_order = [];
  order = λ entries. [];
}

abbrev second : Request ℕ ℕ
second = record first { read_at = 200 }

cacheable : IsCacheable is_zero is_one asked
unfolding eligible
cacheable = refl

cold : (get gate memory "k" 100).1 ≡ none
unfolding get new_memory live lookup
cold = refl

short : length answer.body ≤ 8_388_608
short = omega arith

space : let s = swept gate (get gate memory "k" 100).0 150 [] in size s.entries < s.max_entries
unfolding get new_memory swept is_due sweep_locked size
space = omega arith

alive : 200 < 150 + clamped_ttl 2_000_000
unfolding clamped_ttl
alive = omega arith

hit_after_fetch_example :
    let left = (cache_stage is_zero is_one digest 2_000_000 gate first memory asked).store in
    let hit =
      cache_stage is_zero is_one digest 2_000_000 gate second
        (read_all gate (("k", 160) ∷ ("other", 170) ∷ []) left)
        asked in
    (hit.reply ≡ replayed (capture answer))
    × (hit.forwarded ≡ false)
    × (hit.carrier.consumed ≡ pos 0)
    × (hit.carrier.served_by ≡ "cache")
hit_after_fetch_example =
    hit_after_fetch is_zero is_one digest 2_000_000 gate first second memory asked asked
      (("k", 160) ∷ ("other", 170) ∷ []) cacheable cacheable refl (inl (refl, refl)) cold
      (omega arith, omega arith, refl, short) (omega arith) (inr space) (omega arith) alive

stored_whole_example :
    let n = (cache_stage is_zero is_one digest 2_000_000 gate first memory asked).store in
    (n ≡ memory)
    ⊎ (((true && eligible is_zero is_one asked.chat) ≡ true)
        × IsKept is_zero is_one digest 2_000_000 gate first (get gate memory "k" 100).0 asked n)
stored_whole_example = stored_whole is_zero is_one digest 2_000_000 gate first memory asked
