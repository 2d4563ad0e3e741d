-- ===== src/Relay/Plan/Tests.antt =====
-- A walk over two candidates and a chain of three fallback models, one of them the primary again.
use breakwater.Base.{
  ℕ, ◌+◌, ◌≡◌, refl, true, List, [], ◌∷◌, ◌++◌, Option, none, some, String, insert, str_eq,
  if◌then◌else◌, arith,
}
use breakwater.Relay.Plan.{new_plan, target}
use breakwater.Relay.Plan.Route.{place, with_model, onward}
use breakwater.Relay.Plan.Target.{visit, target-place}

abbrev answer : String → Option (List String)
answer model = if str_eq model "mini" then some ("c" ∷ []) else none

abbrev resolve : ℕ → String → ℕ × Option (List String)
resolve w model = (w + 1, answer model)

abbrev chain : List String
chain = "gpt" ∷ "lost" ∷ "mini" ∷ []

target-place_example :
    let before = visit resolve answer (λ w m. refl) 2 (new_plan "gpt" ("a" ∷ "b" ∷ []) chain) 0 in
    let r = target (some resolve) 3 before.1 before.0 in
    (r.2
      ≡ place 2
          ("", "")
          (with_model "gpt" ("a" ∷ "b" ∷ []) ++ onward answer (insert "gpt" true []) chain))
    × ((w' : ℕ) → target (some resolve) 3 r.1 w' ≡ (w', r.1, r.2))
target-place_example =
    target-place resolve answer (λ w m. refl) "gpt" ("a" ∷ "b" ∷ []) chain 0 2 (omega arith)
