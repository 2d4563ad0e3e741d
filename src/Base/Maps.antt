-- ===== src/Base/Maps.antt =====
-- Go maps with text keys, as association lists: the zero value of a missing key is the caller's.
use Prim.Native.String.{String}
use mathlib.Core.Path.{◌≡◌, refl, ◌∙◌}
use mathlib.Core.List.{List, [], ◌∷◌}
use mathlib.Core.Option.{Option, none, some}
use mathlib.Core.Logic.{inl, inr}
use Prim.Native.Nat.{ℕ, ◌+◌, ◌≤◌}
use native.Mathlib.Omega.{arith}
use text.Mathlib.TextEquality.{eq_iff}
use breakwater.Base.Tests.{str_eq, if◌then◌else◌, str_eq_refl, str_eq_sym, String-cases, Bool-cases}

abbrev pub Assoc {ℓ} : Type ℓ → Type ℓ
Assoc V = List (String × V)

module _ {ℓ} {V : Type ℓ} where
  unfoldable pub lookup : String → Assoc V → Option V
  lookup k [] = none
  lookup k ((j, v) ∷ m) = if str_eq j k then some v else lookup k m

  unfoldable pub insert : String → V → Assoc V → Assoc V
  insert k v [] = (k, v) ∷ []
  insert k v ((j, w) ∷ m) = if str_eq j k then (k, v) ∷ m else (j, w) ∷ insert k v m

  unfoldable pub delete : String → Assoc V → Assoc V
  delete k [] = []
  delete k ((j, w) ∷ m) = let rest = delete k m in if str_eq j k then rest else (j, w) ∷ rest

  pub lookup-insert :
      (j k : String) (v : V) (m : Assoc V)
      → lookup j (insert k v m) ≡ (if str_eq k j then some v else lookup j m)
  unfolding lookup insert
  lookup-insert j k v [] = refl
  lookup-insert j k v ((i, w) ∷ m) =
      ground (arith, eq_iff k j, eq_iff i k, eq_iff i j, lookup-insert j k v m)

  pub lookup-insert_self : (k : String) (v : V) (m : Assoc V) → lookup k (insert k v m) ≡ some v
  lookup-insert_self k v m = rw (lookup-insert, str_eq_refl)

  pub lookup-delete :
      (j k : String) (m : Assoc V)
      → lookup j (delete k m) ≡ (if str_eq k j then none else lookup j m)
  unfolding lookup delete
  lookup-delete j k [] = ground arith
  lookup-delete j k ((i, w) ∷ m) =
      ground (arith, eq_iff k j, eq_iff i k, eq_iff i j, lookup-delete j k m)

  -- No key stands twice.
  abbrev pub IsDistinct : Assoc V → Type ℓ
  IsDistinct [] = Unit {ℓ}
  IsDistinct ((k, v) ∷ m) = (lookup k m ≡ none) × IsDistinct m

  pub insert-IsDistinct :
      (k : String) (v : V) (m : Assoc V) → IsDistinct m → IsDistinct (insert k v m)
  unfolding insert lookup
  insert-IsDistinct k v [] d = (refl, tt)
  insert-IsDistinct k v ((j, w) ∷ m) d = elim (String-cases j k) [
    | inl e ↦ rw (e, str_eq_refl) (rw e at d.0, d.1)
    | inr e ↦ rw e (lookup-insert j k v m ∙ rw (str_eq_sym k j, e) d.0, insert-IsDistinct k v m d.1)
  ]

  pub delete-IsDistinct : (k : String) (m : Assoc V) → IsDistinct m → IsDistinct (delete k m)
  unfolding delete
  delete-IsDistinct k [] d = tt
  delete-IsDistinct k ((j, w) ∷ m) d = elim (Bool-cases (str_eq j k)) [
    | inl e ↦ rw e (delete-IsDistinct k m d.1)
    | inr e ↦ rw e (lookup-delete j k m ∙ rw (str_eq_sym k j, e) d.0, delete-IsDistinct k m d.1)
  ]

  pub delete_of_lookup-eq-none : (k : String) (m : Assoc V) → lookup k m ≡ none → delete k m ≡ m
  unfolding delete lookup
  delete_of_lookup-eq-none k [] h = refl
  delete_of_lookup-eq-none k ((j, w) ∷ m) h = ground (arith, delete_of_lookup-eq-none k m)

  -- A sum over the values.
  unfoldable pub total : (V → ℕ) → Assoc V → ℕ
  total f [] = 0
  total f ((k, v) ∷ m) = f v + total f m

  pub total-insert :
      (f : V → ℕ) (k : String) (v w : V) (m : Assoc V)
      → lookup k m ≡ some w
      → total f (insert k v m) + f w ≡ total f m + f v
  unfolding total insert lookup
  total-insert f k v w [] h = cc
  total-insert f k v w ((j, u) ∷ m) h = ground (arith, total-insert f k v w m)

  pub total-insert_fresh :
      (f : V → ℕ) (k : String) (v : V) (m : Assoc V)
      → lookup k m ≡ none
      → total f (insert k v m) ≡ total f m + f v
  unfolding total insert lookup
  total-insert_fresh f k v [] h = omega arith
  total-insert_fresh f k v ((j, u) ∷ m) h = ground (arith, total-insert_fresh f k v m)

  pub total-delete :
      (f : V → ℕ) (k : String) (w : V) (m : Assoc V)
      → IsDistinct m
      → lookup k m ≡ some w
      → total f (delete k m) + f w ≡ total f m
  unfolding total delete lookup
  total-delete f k w [] d h = cc
  total-delete f k w ((j, u) ∷ m) d h = ground (
    arith,
    eq_iff j k,
    d.0,
    delete_of_lookup-eq-none j m,
    delete_of_lookup-eq-none k m,
    total-delete f k w m d.1,
  )

  pub le-total :
      (f : V → ℕ) (k : String) (w : V) (m : Assoc V) → lookup k m ≡ some w → f w ≤ total f m
  unfolding total lookup
  le-total f k w [] h = cc
  le-total f k w ((j, u) ∷ m) h = ground (arith, le-total f k w m)

  -- The number of entries.
  unfoldable pub size : Assoc V → ℕ
  size [] = 0
  size ((k, v) ∷ m) = size m + 1

  pub size-insert_held :
      (k : String) (v w : V) (m : Assoc V) → lookup k m ≡ some w → size (insert k v m) ≡ size m
  unfolding size insert lookup
  size-insert_held k v w [] h = cc
  size-insert_held k v w ((j, u) ∷ m) h = ground (arith, size-insert_held k v w m)

  pub size-insert : (k : String) (v : V) (m : Assoc V) → size (insert k v m) ≤ size m + 1
  unfolding size insert
  size-insert k v [] = omega arith
  size-insert k v ((j, u) ∷ m) = ground (arith, size-insert k v m)

  pub size-delete : (k : String) (m : Assoc V) → size (delete k m) ≤ size m
  unfolding size delete
  size-delete k [] = omega arith
  size-delete k ((j, u) ∷ m) = ground (arith, size-delete k m)

  pub size-delete_held :
      (k : String) (w : V) (m : Assoc V) → lookup k m ≡ some w → size (delete k m) + 1 ≤ size m
  unfolding size delete lookup
  size-delete_held k w [] h = cc
  size-delete_held k w ((j, u) ∷ m) h = ground (arith, size-delete_held k w m, size-delete k m)
