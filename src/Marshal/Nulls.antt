-- ===== src/Marshal/Nulls.antt =====
-- lib/sql/marshal.cpp, `getNulls`: bit `i` of the mask says whether column `i` is null.
use relvec_db.Common.{
  ℕ, suc, ◌+◌, ◌*◌, ◌/◌, ◌^◌, ◌<◌, ◌≡◌, sym, ◌∙◌, ap, Bool, true, false, [], ◌∷◌, arith, length,
  if◌then◌else◌,
}
use relvec_db.Row.{Value, Row, is_null}
use relvec_db.Marshal.{nulls_from, get_nulls}
use relvec_db.Marshal.Words.{bit_at}
use native.Mathlib.Nat.{pow-suc, div-div-eq-div-mul, pow-le-pow_right}

-- The mask by its digits, the first column lowest.
unfoldable pub mask : Row → ℕ
mask [] = 0
mask (v ∷ row) = (if is_null v then 1 else 0) + 2 * mask row

if-mul : (b : Bool) (n : ℕ) → (if b then n else 0) ≡ n * (if b then 1 else 0)
if-mul true n = omega arith
if-mul false n = omega arith

nulls_from-mask : (i : ℕ) (row : Row) → nulls_from i row ≡ 2 ^ i * mask row
unfolding nulls_from mask
nulls_from-mask i [] = omega arith
nulls_from-mask i (v ∷ row) = omega (
  arith,
  pow-suc 2 i,
  nulls_from-mask (suc i) row,
  if-mul (is_null v) (2 ^ i),
  ap (λ (t : ℕ). t * mask row) (pow-suc 2 i),
)

pub get_nulls-mask : (row : Row) → get_nulls row ≡ mask row
unfolding get_nulls
get_nulls-mask row = omega (arith, nulls_from-mask 0 row)

pub mask-lt : (row : Row) → mask row < 2 ^ length row
unfolding mask
mask-lt [] = omega arith
mask-lt (v ∷ row) = ground (arith, pow-suc 2 (length row), mask-lt row)

pub mask-step :
    (n i : ℕ) (v : Value) (row : Row) → n / 2 ^ i ≡ mask (v ∷ row) → n / 2 ^ suc i ≡ mask row
unfolding mask
mask-step n i v row h =
    rw (pow-suc 2 i) (sym (div-div-eq-div-mul n (2 ^ i) 2) ∙ ap (λ (t : ℕ). t / 2) h ∙ halve)
  where
    halve : mask (v ∷ row) / 2 ≡ mask row
    halve = ground arith

pub bit_at-mask :
    (n i : ℕ) (v : Value) (row : Row) → n / 2 ^ i ≡ mask (v ∷ row) → bit_at n i ≡ is_null v
unfolding mask bit_at
bit_at-mask n i v row h = ground arith

-- The mask of a row that `serializeRow` takes fits its word.
pub get_nulls-lt : (row : Row) → length row < 64 → get_nulls row < 256 ^ 8
get_nulls-lt row h = omega (
  arith,
  get_nulls-mask row,
  mask-lt row,
  pow-le-pow_right {n = 2} (omega arith) {i = length row} {j = 64} (omega arith),
)
