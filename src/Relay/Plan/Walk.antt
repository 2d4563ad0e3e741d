-- ===== src/Relay/Plan/Walk.antt =====
-- fallback.go: what `advance` leaves of a route, and where a walk stands on it.
use breakwater.Base.{
  ℕ, ◌+◌, ◌-◌, ◌≤◌, ◌<◌, ◌≡◌, refl, sym, ap, ◌∙◌, ◌⊎◌, inl, inr, Bool, true, false, List, [], ◌∷◌,
  ◌++◌, Option, none, some, String, lookup, insert, length, length-append, ltb, arith, Bool-cases,
}
use mathlib.Core.List.{append_assoc}
use breakwater.Relay.Plan.{Plan, was_attempted, switch_batch, advance_over, advance}
use breakwater.Relay.Plan.Route.{Route, with_model, or_none, onward, length-with_model}

module _ {W : Type 0} (resolve : W → String → W × Option (List String))
    (answer : String → Option (List String))
    (answers : (w : W) (m : String) → (resolve w m).1 ≡ answer m) where
  -- What `advance` leaves: a next batch that the route goes on with, or the end of the route.
  abbrev pub Advanced : ℕ → Route → Plan → W × Plan × Bool → Type 0
  Advanced attempt route p r =
      ((r.2 ≡ true)
        × (r.1.batch_start ≡ attempt)
        × (0 < length r.1.current.candidates)
        × (route
            ≡ with_model r.1.current.model r.1.current.candidates
              ++ onward answer r.1.attempted r.1.fallbacks))
      ⊎ ((r.2 ≡ false)
          × (route ≡ [])
          × (r.1.current ≡ p.current)
          × (r.1.batch_start ≡ p.batch_start)
          × (r.1.fallbacks ≡ []))

  switch-Advanced :
      (attempt : ℕ) (model : String) (got : Option (List String)) (p : Plan) (w : W)
      (rest : W × Plan × Bool)
      → Advanced attempt (onward answer p.attempted p.fallbacks) p rest
      → Advanced attempt
          (with_model model (or_none got) ++ onward answer p.attempted p.fallbacks)
          p
          (switch_batch resolve attempt model got p w rest)
  unfolding switch_batch
  switch-Advanced attempt model none p w rest h = h
  switch-Advanced attempt model (some []) p w rest h = h
  switch-Advanced attempt model (some (c ∷ cs)) p w rest h = inl (refl, refl, omega arith, refl)

  advance_over-Advanced :
      (attempt : ℕ) (chain : List String) (p : Plan) (w : W)
      → Advanced attempt
          (onward answer p.attempted chain)
          p
          (advance_over resolve attempt chain p w)
  unfolding advance_over
  advance_over-Advanced attempt [] p w = inr (refl, refl, refl, refl, refl)
  advance_over-Advanced attempt (model ∷ chain) p w =
      elim (Bool-cases (was_attempted (lookup model p.attempted))) [
        | inl e ↦ rw (e, advance_over, onward) (advance_over-Advanced attempt chain p w)
        | inr e ↦
            let marked = record p {
              fallbacks = chain;
              attempted = insert model true p.attempted;
            } in
            let w' = (resolve w model).0 in
            rw (e, advance_over, onward, ← answers w model)
              (switch-Advanced attempt model (resolve w model).1 marked w'
                (advance_over resolve attempt chain marked w')
                (advance_over-Advanced attempt chain marked w'))
      ]

  pub advance-Advanced :
      (attempt : ℕ) (p : Plan) (w : W)
      → Advanced attempt
          (onward answer p.attempted p.fallbacks)
          p
          (advance (some resolve) attempt p w)
  unfolding advance
  advance-Advanced attempt p w = advance_over-Advanced attempt p.fallbacks p w

  -- Where a walk stands before attempt `a`: the route is what lies behind, the current batch and what
  -- is still ahead, and the attempt is within or just behind the batch unless nothing is ahead.
  pub record Walks (route : Route) (a : ℕ) (p : Plan) : Type 0 where
    pub behind : Route
    pub split :
        route
        ≡ behind
          ++ (with_model p.current.model p.current.candidates
              ++ onward answer p.attempted p.fallbacks)
    pub position : length behind + 1 ≡ p.batch_start
    pub some_candidate : 0 < length p.current.candidates
    pub reached : p.batch_start ≤ a
    pub room :
        (a ≤ p.batch_start + length p.current.candidates)
        ⊎ (onward answer p.attempted p.fallbacks ≡ [])

  -- The end of a batch is the start of the next one.
  pub next_walk :
      (route : Route) (a : ℕ) (p q : Plan)
      → Walks route a p
      → ltb (a - p.batch_start) (length p.current.candidates) ≡ false
      → q.batch_start ≡ a
      → 0 < length q.current.candidates
      → onward answer p.attempted p.fallbacks
        ≡ with_model q.current.model q.current.candidates ++ onward answer q.attempted q.fallbacks
      → Walks route a q
  next_walk route a p q walk e start candidate ahead =
      let batch = with_model p.current.model p.current.candidates in
      let past : p.batch_start + length p.current.candidates ≤ a = ground (arith, walk.reached) in
      let next = with_model q.current.model q.current.candidates in
      let left : 0 < length (onward answer p.attempted p.fallbacks) =
        rw (ahead, length-append)
          (omega (arith, length-with_model q.current.model q.current.candidates, candidate)) in
      let within : a ≤ p.batch_start + length p.current.candidates = elim walk.room [
        | inl h ↦ h
        | inr over ↦ absurd (omega (arith, left, ap length over))
      ] in
      record {
        behind = walk.behind ++ batch;
        split =
            walk.split
            ∙ ap (λ rest. walk.behind ++ (batch ++ rest)) ahead
            ∙ sym (append_assoc walk.behind batch _);
        position = rw length-append (
            omega (
              arith,
              length-with_model p.current.model p.current.candidates,
              walk.position,
              past,
              within,
              start,
            ));
        some_candidate = candidate;
        reached = omega (arith, start);
        room = inl (omega (arith, start));
      }
