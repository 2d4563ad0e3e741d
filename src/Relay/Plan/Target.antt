-- ===== src/Relay/Plan/Target.antt =====
-- fallback.go: the candidate of each attempt, against the list of all of them.
use breakwater.Base.{
  ℕ, zero, suc, ◌+◌, ◌-◌, ◌≤◌, ◌<◌, ◌≡◌, refl, sym, subst, ap, ◌∙◌, inl, inr, true, false, List, [],
  ◌++◌, Option, some, String, insert, length, ltb, arith, ltb→lt, Bool-cases,
}
use mathlib.Core.List.{append-nil}
use breakwater.Relay.Plan.{
  Batch, Plan, nth, new_plan, advance_over, advance, pick, after_advance, target,
}
use breakwater.Relay.Plan.Route.{
  Route, with_model, place, onward, place-append, place-with_model, place_past,
}
use breakwater.Relay.Plan.Walk.{advance-Advanced, Walks, next_walk}

module _ {W : Type 0} (resolve : W → String → W × Option (List String))
    (answer : String → Option (List String))
    (answers : (w : W) (m : String) → (resolve w m).1 ≡ answer m) where
  -- What `target` owes an attempt: its place of the route, a plan that walks on, and the same answer
  -- when the attempt is asked for again.
  abbrev Serves : Route → ℕ → String × String → W × Plan × (String × String) → Type 0
  Serves route a x r =
      (r.2 ≡ place (a - 1) x route)
      × Walks resolve answer answers route (a + 1) r.1
      × ((w : W) → target (some resolve) a r.1 w ≡ (w, r.1, r.2))

  within-Serves :
      (route : Route) (a : ℕ) (p : Plan) (w : W) (x : String × String)
      → Walks resolve answer answers route a p
      → ltb (a - p.batch_start) (length p.current.candidates) ≡ true
      → Serves route a x (target (some resolve) a p w)
  unfolding target pick
  within-Serves route a p w x walk e =
      let at : a - 1 ≡ length walk.behind + (a - p.batch_start) =
        omega (arith, walk.position, walk.reached) in
      let low = ltb→lt (a - p.batch_start) (length p.current.candidates) e in
      let rest =
        with_model p.current.model p.current.candidates ++ onward answer p.attempted p.fallbacks in
      let there : place (a - 1) x route
          ≡ (nth (a - p.batch_start) p.current.candidates, p.current.model) =
        rw (at, walk.split)
          (place-append walk.behind rest (a - p.batch_start) x
            ∙ place-with_model p.current.model p.current.candidates
                (onward answer p.attempted p.fallbacks) (a - p.batch_start)
                (place (length walk.behind) x walk.behind) low) in
      let answered : (w' : W) → target (some resolve) a p w' ≡ (w', p, pick p (a - p.batch_start)) =
        λ w'. rw e refl in
      subst (Serves route a x) (sym (answered w)) (
        sym there,
        record {
          behind = walk.behind;
          split = walk.split;
          position = walk.position;
          some_candidate = walk.some_candidate;
          reached = omega (arith, walk.reached);
          room = inl (omega (arith, low, walk.reached));
        },
        answered,
      )

  moved-Serves :
      (route : Route) (a : ℕ) (p q : Plan) (w v : W) (x : String × String)
      → Walks resolve answer answers route a q
      → ltb (a - p.batch_start) (length p.current.candidates) ≡ false
      → q.batch_start ≡ a
      → 0 < length q.current.candidates
      → advance (some resolve) a p w ≡ (v, q, true)
      → Serves route a x (target (some resolve) a p w)
  unfolding target after_advance
  moved-Serves route a p q w v x walk e start candidate went =
      let first : ltb (a - q.batch_start) (length q.current.candidates) ≡ true = ground arith in
      let same : target (some resolve) a q v ≡ target (some resolve) a p w =
        rw (e, went, first) refl in
      subst (Serves route a x) same (within-Serves route a q v x walk first)

  spent :
      (a : ℕ) (q : Plan) (w : W)
      → q.fallbacks ≡ []
      → advance (some resolve) a q w ≡ (w, record q { fallbacks = [] }, false)
  unfolding advance advance_over
  spent a q w none_left = rw none_left refl

  stayed-Serves :
      (route : Route) (a : ℕ) (p q : Plan) (w v : W) (x : String × String)
      → Walks resolve answer answers route a p
      → ltb (a - p.batch_start) (length p.current.candidates) ≡ false
      → onward answer p.attempted p.fallbacks ≡ []
      → q.current ≡ p.current
      → q.batch_start ≡ p.batch_start
      → q.fallbacks ≡ []
      → advance (some resolve) a p w ≡ (v, q, false)
      → Serves route a x (target (some resolve) a p w)
  unfolding target after_advance pick
  stayed-Serves route a p q w v x walk e over current start none_left went =
      let batch : with_model q.current.model q.current.candidates
          ≡ with_model p.current.model p.current.candidates =
        ap (λ (b : Batch). with_model b.model b.candidates) current in
      let size : length q.current.candidates ≡ length p.current.candidates =
        ap (λ (b : Batch). length b.candidates) current in
      let nobody : onward answer q.attempted q.fallbacks ≡ [] = rw none_left refl in
      let past : p.batch_start + length p.current.candidates ≤ a = ground (arith, walk.reached) in
      let whole : route ≡ walk.behind ++ with_model q.current.model q.current.candidates =
        walk.split ∙ rw (over, append-nil, batch) refl in
      let at : a - 1 ≡ length walk.behind + (a - p.batch_start) =
        omega (arith, walk.position, walk.reached) in
      let last = pick q (length q.current.candidates - 1) in
      let there : place (a - 1) x route ≡ last =
        rw (at, whole)
          (place-append walk.behind (with_model q.current.model q.current.candidates)
              (a - p.batch_start) x
            ∙ place_past q.current.model q.current.candidates (a - p.batch_start)
                (place (length walk.behind) x walk.behind)
                (omega (arith, size, walk.some_candidate))
                (omega (arith, size, past, walk.reached))) in
      let shut : ltb (a - q.batch_start) (length q.current.candidates) ≡ false =
        rw (start, size) e in
      let ended : record q { fallbacks = [] } ≡ q =
        ap (λ fs. record q { fallbacks = fs }) (sym none_left) in
      let answered : target (some resolve) a p w ≡ (v, q, last) = rw (e, went) refl in
      subst (Serves route a x) (sym answered) (
        sym there,
        record {
          behind = walk.behind;
          split = whole ∙ rw (nobody, append-nil) refl;
          position = omega (arith, walk.position, start);
          some_candidate = omega (arith, size, walk.some_candidate);
          reached = omega (arith, start, walk.reached);
          room = inr nobody;
        },
        λ w'. rw (shut, spent a q w' none_left, ended) refl,
      )

  target-Serves :
      (route : Route) (a : ℕ) (p : Plan) (w : W) (x : String × String)
      → Walks resolve answer answers route a p
      → Serves route a x (target (some resolve) a p w)
  target-Serves route a p w x walk =
      let r = advance (some resolve) a p w in
      elim (Bool-cases (ltb (a - p.batch_start) (length p.current.candidates))) [
        | inl e ↦ within-Serves route a p w x walk e
        | inr e ↦ elim (advance-Advanced resolve answer answers a p w) [
          | inl m ↦
              moved-Serves route a p r.1 w r.0 x
                (next_walk resolve answer answers route a p r.1 walk e m.1 m.2 m.3) e m.1 m.2
                (λ i. (r.0, r.1, m.0 i))
          | inr h ↦
              stayed-Serves route a p r.1 w r.0 x walk e h.1 h.2 h.3 h.4 (λ i. (r.0, r.1, h.0 i))
        ]
      ]

  -- The plan after the first `n` attempts.
  pub visit : ℕ → Plan → W → W × Plan
  visit zero p w = (w, p)
  visit (suc n) p w =
      let (w', q) = visit n p w in
      let (w'', q', t) = target (some resolve) (n + 1) q w' in (w'', q')

  visit-Walks :
      (route : Route) (p : Plan) (w : W)
      → Walks resolve answer answers route 1 p
      → (n : ℕ) → Walks resolve answer answers route (n + 1) (visit n p w).1
  unfolding visit
  visit-Walks route p w walk zero = walk
  visit-Walks route p w walk (suc n) =
      let e : n + 1 + 1 ≡ suc n + 1 = omega arith in
      subst (λ k. Walks resolve answer answers route k (visit (suc n) p w).1) e
        (target-Serves route (n + 1) (visit n p w).1 (visit n p w).0 ("", "")
          (visit-Walks route p w walk n)).1

  -- With a resolver that answers each model the same throughout, attempt `n + 1` of a request that
  -- has a candidate goes to place `n` of the route, or to its last place beyond: the candidates of the
  -- model, then those of each fallback model that resolves to some, no model twice. Asked for the same
  -- attempt again, as the look-ahead of the attempt before does, the plan gives the same.
  pub target-place :
      (model : String) (candidates fallbacks : List String) (w : W) (n : ℕ)
      → 0 < length candidates
      → let route = with_model model candidates ++ onward answer (insert model true []) fallbacks in
        let before = visit n (new_plan model candidates fallbacks) w in
        let r = target (some resolve) (n + 1) before.1 before.0 in
        (r.2 ≡ place n ("", "") route)
        × ((w' : W) → target (some resolve) (n + 1) r.1 w' ≡ (w', r.1, r.2))
  target-place model candidates fallbacks w n candidate =
      let route = with_model model candidates ++ onward answer (insert model true []) fallbacks in
      let p = new_plan model candidates fallbacks in
      let start : Walks resolve answer answers route 1 p =
        unfold new_plan in
        (record {
          behind = [];
          split = refl;
          position = omega arith;
          some_candidate = candidate;
          reached = omega arith;
          room = inl (omega arith);
        }) in
      let before = visit n p w in
      let served =
        target-Serves route (n + 1) before.1 before.0 ("", "") (visit-Walks route p w start n) in
      let e : n + 1 - 1 ≡ n = omega arith in
      (
        subst (λ k. (target (some resolve) (n + 1) before.1 before.0).2 ≡ place k ("", "") route) e
            served.0,
        served.2,
      )
