-- ===== src/Relay/Plan.antt =====
-- internal/relay/fallback.go: the candidates of the primary model, then those of each fallback model,
-- resolved when the attempts reach them. An upstream is its identifier. The batches are kept as the
-- current one, which is the last, and the earlier ones; of the chain what is unread is kept.
pub mod Route
pub mod Walk
pub mod Target
pub mod Neutral
mod Tests
use breakwater.Base.{
  ℕ, zero, suc, ◌+◌, ◌-◌, Bool, true, false, List, [], ◌∷◌, Option, none, some, String, Assoc,
  lookup, insert, length, ltb, if◌then◌else◌,
}

pub record Batch : Type 0 where
  pub model : String
  pub candidates : List String

pub record Plan : Type 0 where
  pub earlier : List Batch
  pub current : Batch
  pub batch_start : ℕ
  pub fallbacks : List String
  pub attempted : Assoc Bool

-- A missing key of `attempted` reads false.
abbrev pub was_attempted : Option Bool → Bool
was_attempted none = false
was_attempted (some b) = b

abbrev pub nth : ℕ → List String → String
nth n [] = ""
nth zero (c ∷ cs) = c
nth (suc n) (c ∷ cs) = nth n cs

-- The plan at the start of `Execute`.
pub new_plan : String → List String → List String → Plan
new_plan model candidates fallbacks = record {
  earlier = [];
  current = record { model = model; candidates = candidates };
  batch_start = 1;
  fallbacks = fallbacks;
  attempted = insert model true [];
}

module _ {W : Type 0} (resolve : W → String → W × Option (List String)) where
  -- What the loop of `advance` does with the answer for one model: another batch, or the rest.
  switch_batch : ℕ → String → Option (List String) → Plan → W → W × Plan × Bool → W × Plan × Bool
  switch_batch attempt model none p w rest = rest
  switch_batch attempt model (some []) p w rest = rest
  switch_batch attempt model (some (c ∷ cs)) p w rest = (
    w,
    record p {
      earlier = p.current ∷ p.earlier;
      current = record { model = model; candidates = c ∷ cs };
      batch_start = attempt;
    },
    true,
  )

  advance_over : ℕ → List String → Plan → W → W × Plan × Bool
  unfolding switch_batch
  advance_over attempt [] p w = (w, record p { fallbacks = [] }, false)
  advance_over attempt (model ∷ chain) p w = elim (was_attempted (lookup model p.attempted)) [
    | true ↦ advance_over attempt chain p w
    | false ↦
        let (w', got) = resolve w model in
        let marked = record p { fallbacks = chain; attempted = insert model true p.attempted } in
        switch_batch attempt model got marked w' (advance_over attempt chain marked w')
  ]

-- The resolver of the job; nil ignores the chain.
abbrev pub Resolver : Type 0 → Type 0
Resolver W = Option (W → String → W × Option (List String))

-- `advance`.
pub advance : {W : Type 0} → Resolver W → ℕ → Plan → W → W × Plan × Bool
unfolding advance_over
advance none attempt p w = (w, p, false)
advance (some resolve) attempt p w = advance_over resolve attempt p.fallbacks p w

-- The candidate at an offset of the current batch, and its model.
pick : Plan → ℕ → String × String
pick p offset = (nth offset p.current.candidates, p.current.model)

after_advance : {W : Type 0} → ℕ → W × Plan × Bool → W × Plan × (String × String)
unfolding pick
after_advance attempt (w, p, true) = (w, p, pick p (attempt - p.batch_start))
after_advance attempt (w, p, false) = (w, p, pick p (length p.current.candidates - 1))

-- `target`: a batch that `advance` switches to starts at the attempt and has a candidate, so the loop
-- makes one turn at most.
pub target : {W : Type 0} → Resolver W → ℕ → Plan → W → W × Plan × (String × String)
unfolding after_advance
target resolve attempt p w =
    if ltb (attempt - p.batch_start) (length p.current.candidates)
    then (w, p, pick p (attempt - p.batch_start))
    else after_advance attempt (advance resolve attempt p w)
