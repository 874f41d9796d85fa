-- ===== src/Common/Int.antt =====
-- Signed integers over the native numbers, under the library's names (its ℤ stands on the unary ℕ).
use Prim.Native.Nat.{ℕ, suc, ◌+◌, ◌-◌, ◌*◌, ◌/◌}
use mathlib.Core.Path.{◌≡◌, ap}
use mathlib.Core.Bool.{Bool, true, false}
use native.Mathlib.Omega.{arith}
use relvec_db.Common.Tests.{ltb, leb, ◌==◌, if◌then◌else◌}

-- `negsuc n` is -(n + 1).
pub data ℤ : Type 0 where
  pos : ℕ → ℤ
  negsuc : ℕ → ℤ

abbrev pub pos_part : ℤ → ℕ
pos_part (pos n) = n
pos_part (negsuc n) = 0

abbrev pub neg_part : ℤ → ℕ
neg_part (pos n) = 0
neg_part (negsuc n) = suc n

abbrev pub ltb_ℤ : ℤ → ℤ → Bool
ltb_ℤ a b = ltb (pos_part a + neg_part b) (pos_part b + neg_part a)

abbrev pub eqb_ℤ : ℤ → ℤ → Bool
eqb_ℤ (pos m) (pos n) = m == n
eqb_ℤ (negsuc m) (negsuc n) = m == n
eqb_ℤ (pos m) (negsuc n) = false
eqb_ℤ (negsuc m) (pos n) = false

pub eqb_ℤ-eq : (i j : ℤ) → eqb_ℤ i j ≡ true → i ≡ j
eqb_ℤ-eq (pos m) (pos n) h = ap pos (ground arith)
eqb_ℤ-eq (pos m) (negsuc n) h = cc
eqb_ℤ-eq (negsuc m) (pos n) h = cc
eqb_ℤ-eq (negsuc m) (negsuc n) h = ap negsuc (ground arith)

pub eqb_ℤ_refl : (i : ℤ) → eqb_ℤ i i ≡ true
eqb_ℤ_refl (pos n) = ground arith
eqb_ℤ_refl (negsuc n) = ground arith

-- a - b, as an integer.
abbrev pub sub_ℕ : ℕ → ℕ → ℤ
sub_ℕ a b = if leb b a then pos (a - b) else negsuc (b - a - 1)

infixl 65 ◌+ℤ◌ ◌-ℤ◌
infixl 70 ◌*ℤ◌ ◌/ℤ◌
unfoldable pub ◌+ℤ◌ : ℤ → ℤ → ℤ
a +ℤ b = sub_ℕ (pos_part a + pos_part b) (neg_part a + neg_part b)

unfoldable pub ◌-ℤ◌ : ℤ → ℤ → ℤ
a -ℤ b = sub_ℕ (pos_part a + neg_part b) (neg_part a + pos_part b)

unfoldable pub ◌*ℤ◌ : ℤ → ℤ → ℤ
a *ℤ b =
    sub_ℕ (pos_part a * pos_part b + neg_part a * neg_part b)
      (pos_part a * neg_part b + neg_part a * pos_part b)

-- The quotient that is cut off towards 0.
unfoldable pub ◌/ℤ◌ : ℤ → ℤ → ℤ
pos m /ℤ pos n = pos (m / n)
pos m /ℤ negsuc n = sub_ℕ 0 (m / suc n)
negsuc m /ℤ pos n = sub_ℕ 0 (suc m / n)
negsuc m /ℤ negsuc n = pos (suc m / suc n)
