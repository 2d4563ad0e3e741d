-- ===== src/Base/Int.antt =====
-- Signed integers over the native numbers, and Go's int64 with its wrap-around.
use Prim.Native.Nat.{ℕ, suc, ◌+◌, ◌-◌, ◌%◌, ◌^◌, ◌≤◌, ◌<◌}
use mathlib.Core.Path.{◌≡◌}
use mathlib.Core.Bool.{Bool}
use native.Mathlib.Omega.{arith}
use breakwater.Base.Tests.{ltb, leb, if◌then◌else◌}

-- `negsuc n` is -(n + 1).
pub data ℤ : Type 0 where
  pos : ℕ → ℤ
  negsuc : ℕ → ℤ

abbrev pub pos_part : ℤ → ℕ
pos_part (pos n) = n
pos_part (negsuc n) = 0

abbrev pub neg_part : ℤ → ℕ
neg_part (pos n) = 0
neg_part (negsuc n) = suc n

-- a - b, as an integer.
abbrev pub sub_ℕ : ℕ → ℕ → ℤ
sub_ℕ a b = if leb b a then pos (a - b) else negsuc (b - a - 1)

infixl 65 ◌+ℤ◌ ◌-ℤ◌
infix 50 ◌≤ℤ◌ ◌<ℤ◌
unfoldable pub ◌+ℤ◌ : ℤ → ℤ → ℤ
a +ℤ b = sub_ℕ (pos_part a + pos_part b) (neg_part a + neg_part b)

unfoldable pub ◌-ℤ◌ : ℤ → ℤ → ℤ
a -ℤ b = sub_ℕ (pos_part a + neg_part b) (neg_part a + pos_part b)

abbrev pub ◌≤ℤ◌ : ℤ → ℤ → Type 0
a ≤ℤ b = pos_part a + neg_part b ≤ pos_part b + neg_part a

abbrev pub ◌<ℤ◌ : ℤ → ℤ → Type 0
a <ℤ b = pos_part a + neg_part b < pos_part b + neg_part a

abbrev pub ltb_ℤ : ℤ → ℤ → Bool
ltb_ℤ a b = ltb (pos_part a + neg_part b) (pos_part b + neg_part a)

pub +ℤ_parts :
    (a b : ℤ)
    → pos_part (a +ℤ b) + neg_part a + neg_part b ≡ neg_part (a +ℤ b) + pos_part a + pos_part b
unfolding ◌+ℤ◌
+ℤ_parts a b = ground arith

pub -ℤ_parts :
    (a b : ℤ)
    → pos_part (a -ℤ b) + neg_part a + pos_part b ≡ neg_part (a -ℤ b) + pos_part a + neg_part b
unfolding ◌-ℤ◌
-ℤ_parts a b = ground arith

pub eq_of_parts : (a b : ℤ) → pos_part a + neg_part b ≡ pos_part b + neg_part a → a ≡ b
eq_of_parts a b h = ground arith

pub ruleset int_laws = (arith, +ℤ_parts, -ℤ_parts, eq_of_parts)

-- The int64 with the same residue modulo 2 ^ 64.
unfoldable pub int64 : ℤ → ℤ
int64 (pos n) = let r = n % 2 ^ 64 in if ltb r (2 ^ 63) then pos r else sub_ℕ r (2 ^ 64)
int64 (negsuc n) = let r = n % 2 ^ 64 in if ltb r (2 ^ 63) then negsuc r else pos (2 ^ 64 - 1 - r)

pub int64_id : (a : ℤ) → pos_part a < 2 ^ 63 → neg_part a ≤ 2 ^ 63 → int64 a ≡ a
unfolding int64
int64_id (pos n) h k = ground arith
int64_id (negsuc n) h k = ground arith

-- A sum of naturals that fits is exact.
pub int64_add :
    (a b : ℤ)
    → neg_part a ≡ 0
    → neg_part b ≡ 0
    → pos_part a + pos_part b < 2 ^ 63
    → (pos_part (int64 (a +ℤ b)) ≡ pos_part a + pos_part b) × (neg_part (int64 (a +ℤ b)) ≡ 0)
unfolding int64 ◌+ℤ◌
int64_add a b ha hb h = ground arith

-- A difference of naturals is exact.
pub int64_sub :
    (a b : ℤ)
    → neg_part a ≡ 0
    → neg_part b ≡ 0
    → pos_part a < 2 ^ 63
    → pos_part b < 2 ^ 63
    → (pos_part (int64 (a -ℤ b)) ≡ pos_part a - pos_part b)
      × (neg_part (int64 (a -ℤ b)) ≡ pos_part b - pos_part a)
unfolding int64 ◌-ℤ◌
int64_sub a b ha hb h k = ground arith
