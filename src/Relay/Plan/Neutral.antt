-- ===== src/Relay/Plan/Neutral.antt =====
-- fallback.go: what choosing a target leaves as it is of the state outside.
use breakwater.Base.{
  ℕ, ◌-◌, ◌≡◌, refl, ◌∙◌, inl, inr, Bool, true, false, List, [], ◌∷◌, Option, none, some, String,
  lookup, insert, length, ltb, Bool-cases,
}
use breakwater.Relay.Plan.{
  Plan, was_attempted, switch_batch, advance_over, advance, Resolver, after_advance, target,
}

module _ {W : Type 0} (m : W → ℕ) where
  module _ (resolve : W → String → W × Option (List String))
      (kept : (w : W) (model : String) → m (resolve w model).0 ≡ m w) where
    m-switch_batch :
        (n : ℕ) (model : String) (got : Option (List String)) (p : Plan) (w : W)
        (rest : W × Plan × Bool)
        → m rest.0 ≡ m w
        → m (switch_batch resolve n model got p w rest).0 ≡ m w
    unfolding switch_batch
    m-switch_batch n model none p w rest h = h
    m-switch_batch n model (some []) p w rest h = h
    m-switch_batch n model (some (c ∷ cs)) p w rest h = refl

    m-advance_over :
        (n : ℕ) (chain : List String) (p : Plan) (w : W)
        → m (advance_over resolve n chain p w).0 ≡ m w
    unfolding advance_over
    m-advance_over n [] p w = refl
    m-advance_over n (model ∷ chain) p w =
        let marked = record p { fallbacks = chain; attempted = insert model true p.attempted } in
        let w' = (resolve w model).0 in
        elim (Bool-cases (was_attempted (lookup model p.attempted))) [
          | inl e ↦ rw (e, advance_over) (m-advance_over n chain p w)
          | inr e ↦
              rw (e, advance_over)
                (m-switch_batch n model (resolve w model).1 marked w' _
                    (m-advance_over n chain marked w')
                  ∙ kept w model)
        ]

  m-after_advance : (n : ℕ) (x : W × Plan × Bool) → m (after_advance n x).0 ≡ m x.0
  unfolding after_advance
  m-after_advance n (w, p, true) = refl
  m-after_advance n (w, p, false) = refl

  -- A measure that resolving a model leaves is left by the choice of a target.
  pub m-target :
      (resolve : Resolver W)
      → ((f : W → String → W × Option (List String))
          → resolve ≡ some f
          → (w : W) (model : String) → m (f w model).0 ≡ m w)
      → (n : ℕ) (p : Plan) (w : W) → m (target resolve n p w).0 ≡ m w
  unfolding target
  m-target resolve kept n p w =
      elim (Bool-cases (ltb (n - p.batch_start) (length p.current.candidates))) [
        | inl e ↦ simp e refl
        | inr e ↦ simp e (m-after_advance n (advance resolve n p w) ∙ advanced resolve kept)
      ]
    where
      advanced :
          (g : Resolver W)
          → ((f : W → String → W × Option (List String))
              → g ≡ some f
              → (w' : W) (model : String) → m (f w' model).0 ≡ m w')
          → m (advance g n p w).0 ≡ m w
      advanced none k = unfold advance in refl
      advanced (some f) k = unfold advance in m-advance_over f (k f refl) n p.fallbacks p w
