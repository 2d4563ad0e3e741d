-- ===== src/Router/Priority/Eligible.antt =====
-- priority.go: who is a candidate.
use breakwater.Base.{
  ℕ, suc, ◌≡◌, refl, ap, ◌∙◌, Bool, ◌&&◌, List, [], ◌∷◌, Option, String, Result, ok, err, ltb,
  if◌then◌else◌, Bool-cases, inl, inr,
}
use breakwater.Router.Control.{Switch}
use breakwater.Router.Priority.{
  Breaker, Entry, Priority, RouteError, disabled, unavailable, no_binding, serves, allows_model,
  allows_upstream, ask, gather, conclude, candidates, order_candidates, refusal,
}

module _ (breaker : Breaker) where
  -- The upstreams whose state is read: of the bindings that serve the model, in their order, those
  -- that neither an operator nor the system has disabled.
  abbrev pub enabled : Option Switch → String → List Entry → List String
  enabled control model [] = []
  enabled control model (e ∷ entries) =
      let rest = enabled control model entries in
      if serves model e && allows_upstream control e.upstream then e.upstream ∷ rest else rest

  -- The reads of their states one after another: the breaker after them, and who is not open.
  abbrev pub closed_among : Bool → breaker.B → List String → breaker.B × List String
  closed_among breaks b [] = (b, [])
  closed_among breaks b (id ∷ ids) =
      let (asked, tripped) = ask breaker breaks b id in
      let rest = closed_among breaks asked ids in (rest.0, if tripped then rest.1 else id ∷ rest.1)

  abbrev pub serving : String → List Entry → ℕ
  serving model [] = 0
  serving model (e ∷ entries) =
      let rest = serving model entries in if serves model e then suc rest else rest

  gather-enabled :
      (control : Option Switch) (breaks : Bool) (model : String) (entries : List Entry)
      (b : breaker.B)
      → let gathered = gather breaker control breaks model entries b in
        ((gathered.0, gathered.1) ≡ closed_among breaks b (enabled control model entries))
        × (gathered.2 ≡ serving model entries)
  unfolding gather
  gather-enabled control breaks model [] b = (refl, refl)
  gather-enabled control breaks model (e ∷ entries) b =
      let (asked, tripped) = ask breaker breaks b e.upstream in
      let (skip, skip_count) = gather-enabled control breaks model entries b in
      let (on, on_count) = gather-enabled control breaks model entries asked in
      elim (Bool-cases (serves model e)) [
        | inr away ↦ rw away (skip, skip_count)
        | inl bound ↦ elim (Bool-cases (allows_upstream control e.upstream)) [
          | inr off ↦ rw (bound, off) (skip, ap suc skip_count)
          | inl on_duty ↦
              rw (bound, on_duty)
                (ap (λ r. (r.0, if tripped then r.1 else e.upstream ∷ r.1)) on, ap suc on_count)
        ]
      ]

  abbrev pub outcome :
      Priority → (String → ℕ) → (ℕ → ℕ) → String → List String → Result RouteError (List String)
  outcome p score draw model [] =
      err (if ltb 0 (serving model p.entries) then unavailable else no_binding model)
  outcome p score draw model (c ∷ cs) =
      ok (order_candidates p.strategy p.tracked score draw (c ∷ cs))

  concluded :
      (p : Priority) (score : String → ℕ) (draw : ℕ → ℕ) (model : String) (ids : List String)
      → conclude breaker p score draw model ids (serving model p.entries)
        ≡ outcome p score draw model ids
  unfolding conclude refusal
  concluded p score draw model [] = refl
  concluded p score draw model (c ∷ cs) = refl

  -- A model that an operator has disabled is refused as that, and no state is read. Otherwise, with a
  -- breaker installed, the states of the enabled upstreams of the bindings that serve the model, or
  -- every model, are read once each in binding order, whatever the breaker answers at its turn; the
  -- candidates are those that answered not open, or all of them without a breaker, in the order that
  -- the strategy gives them. When there are none, a model that some binding serves is unavailable and
  -- any other has no binding.
  pub candidates-enabled :
      (p : Priority) (score : String → ℕ) (draw : ℕ → ℕ) (model : String) (b : breaker.B)
      → let (after, found) = closed_among p.breaks b (enabled p.control model p.entries) in
        candidates breaker p score draw model b ≡ (
          if allows_model p.control model
          then (after, outcome p score draw model found)
          else (b, err disabled))
  unfolding candidates
  candidates-enabled p score draw model b =
      let read = closed_among p.breaks b (enabled p.control model p.entries) in
      let (found, count) = gather-enabled p.control p.breaks model p.entries b in
      elim (Bool-cases (allows_model p.control model)) [
        | inr off ↦ rw off refl
        | inl on ↦
            rw (on, count)
              (ap (λ r. (r.0, conclude breaker p score draw model r.1 (serving model p.entries)))
                  found
                ∙ ap (λ r. (read.0, r)) (concluded p score draw model read.1))
      ]
