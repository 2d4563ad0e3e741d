-- ===== src/Relay/Plan/Route.antt =====
-- fallback.go: the list of all the candidates that a request may go to, and its places.
use breakwater.Base.{
  ℕ, zero, suc, ◌+◌, ◌-◌, ◌≤◌, ◌<◌, ◌≡◌, refl, ap, Bool, true, false, List, [], ◌∷◌, ◌++◌, Option,
  none, some, String, Assoc, lookup, insert, length, arith,
}
use breakwater.Relay.Plan.{was_attempted, nth}

-- Candidates with the model that each serves.
abbrev pub Route : Type 0
Route = List (String × String)

abbrev pub with_model : String → List String → Route
with_model model [] = []
with_model model (c ∷ cs) = (c, model) ∷ with_model model cs

-- Place `i` of a route, or its last place.
abbrev pub place : ℕ → String × String → Route → String × String
place i last [] = last
place zero last (x ∷ route) = x
place (suc i) last (x ∷ route) = place i x route

abbrev pub or_none : Option (List String) → List String
or_none none = []
or_none (some cs) = cs

module _ (answer : String → Option (List String)) where
  -- What the fallback models add to the route: each model once, those that resolve to nobody not.
  abbrev pub onward : Assoc Bool → List String → Route
  onward attempted [] = []
  onward attempted (model ∷ chain) = elim (was_attempted (lookup model attempted)) [
    | true ↦ onward attempted chain
    | false ↦
        with_model model (or_none (answer model)) ++ onward (insert model true attempted) chain
  ]

pub length-with_model :
    (model : String) (cs : List String) → length (with_model model cs) ≡ length cs
length-with_model model [] = refl
length-with_model model (c ∷ cs) = ap suc (length-with_model model cs)

-- A place behind a prefix, within a batch, and past the end.
pub place-append :
    (front route : Route) (i : ℕ) (x : String × String)
    → place (length front + i) x (front ++ route) ≡ place i (place (length front) x front) route
place-append [] route i x = let e : 0 + i ≡ i = omega arith in rw e refl
place-append (y ∷ front) route i x =
    let e : suc (length front) + i ≡ suc (length front + i) = omega arith in
    rw e (place-append front route i y)

pub place-with_model :
    (model : String) (cs : List String) (route : Route) (i : ℕ) (x : String × String)
    → i < length cs
    → place i x (with_model model cs ++ route) ≡ (nth i cs, model)
place-with_model model [] route i x h = absurd (omega arith)
place-with_model model (c ∷ cs) route zero x h = refl
place-with_model model (c ∷ cs) route (suc i) x h =
    place-with_model model cs route i (c, model) (omega arith)

pub place_past :
    (model : String) (cs : List String) (i : ℕ) (x : String × String)
    → 0 < length cs
    → length cs ≤ i + 1
    → place i x (with_model model cs) ≡ (nth (length cs - 1) cs, model)
place_past model [] i x h k = absurd (omega arith)
place_past model (c ∷ []) zero x h k = refl
place_past model (c ∷ []) (suc i) x h k = refl
place_past model (c ∷ d ∷ ds) zero x h k = absurd (omega arith)
place_past model (c ∷ d ∷ ds) (suc i) x h k =
    let e : suc (suc (length ds)) - 1 ≡ suc (suc (length ds) - 1) = omega arith in
    rw e (place_past model (d ∷ ds) i (c, model) (omega arith) (omega arith))
