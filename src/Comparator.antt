-- ===== src/Comparator.antt =====
-- lib/sql/comparator.cpp: the lexicographic comparison of rows, with its assertions.
-- The results -1, 0 and 1 are `less`, `equal` and `greater`; the 2 of `compareInstances` is `none`.
pub mod Scalar
pub mod Column
pub mod Order
pub mod Descending
mod Tests
use Prim.Native.Nat.{compare, Ordering}
use relvec_db.Common.{
  ℕ, suc, ◌+◌, Bool, true, false, List, [], ◌∷◌, Option, none, some, length, ◌==◌, get_elem?,
  if◌then◌else◌,
}
use relvec_db.Common.Int.{ℤ, pos_part, neg_part}
use relvec_db.Common.Outcome.{Outcome, ok, fail, assertion, out_of_range, ◌>>=◌, ◌>>◌, guard}
use relvec_db.Row.{Value, null, boolean, uint64, int64, string, Row, is_null}

pub data Sign : Type 0 where
  less equal greater : Sign

-- Multiplication by -1.
abbrev pub flip : Sign → Sign
flip less = greater
flip equal = equal
flip greater = less

-- `<` and `>` of the compared types, as one result.
unfoldable pub compare_ℕ : ℕ → ℕ → Sign
compare_ℕ a b = elim (compare a b) [
  | Ordering.lt ↦ less
  | Ordering.eq ↦ equal
  | Ordering.gt ↦ greater
]

unfoldable pub compare_ℤ : ℤ → ℤ → Sign
unfolding compare_ℕ
compare_ℤ a b = compare_ℕ (pos_part a + neg_part b) (pos_part b + neg_part a)

unfoldable pub compare_bool : Bool → Bool → Sign
compare_bool false false = equal
compare_bool false true = less
compare_bool true false = greater
compare_bool true true = equal

-- What a comparison of the heads leaves to do, for two strings.
abbrev pub then_sign : Sign → Sign → Sign
then_sign less s = less
then_sign equal s = s
then_sign greater s = greater

-- `std::string::compare`: bytes from the left, and a proper prefix is less.
unfoldable pub compare_string : List ℕ → List ℕ → Sign
compare_string [] [] = equal
compare_string [] (y ∷ ys) = less
compare_string (x ∷ xs) [] = greater
compare_string (x ∷ xs) (y ∷ ys) = then_sign (compare_ℕ x y) (compare_string xs ys)

-- The alternatives at which `compareInstances` is instantiated.
pub data Alternative : Type 0 where
  a_bool a_int64 a_uint64 a_string : Alternative

-- `assert(std::holds_alternative<T>(b))`, then the comparison; `none` where `a` holds another type.
unfoldable pub compare_instances : Alternative → Value → Value → Outcome (Option Sign)
compare_instances a_bool (boolean x) (boolean y) = ok (some (compare_bool x y))
compare_instances a_bool (boolean x) b = fail assertion
compare_instances a_bool a b = ok none
compare_instances a_int64 (int64 x) (int64 y) = ok (some (compare_ℤ x y))
compare_instances a_int64 (int64 x) b = fail assertion
compare_instances a_int64 a b = ok none
compare_instances a_uint64 (uint64 x) (uint64 y) = ok (some (compare_ℕ x y))
compare_instances a_uint64 (uint64 x) b = fail assertion
compare_instances a_uint64 a b = ok none
compare_instances a_string (string x) (string y) = ok (some (compare_string x y))
compare_instances a_string (string x) b = fail assertion
compare_instances a_string a b = ok none

-- `compareInstances<T>(l, r) % 2 != 0`
abbrev pub is_odd : Option Sign → Bool
is_odd none = false
is_odd (some less) = true
is_odd (some equal) = false
is_odd (some greater) = true

-- The four tests in the loop's body: the first odd result is returned, times `mul_coef`.
unfoldable pub first_odd : List Alternative → Value → Value → Outcome (Option Sign)
unfolding compare_instances
first_odd [] l r = ok none
first_odd (t ∷ ts) l r = do
  c ← compare_instances t l r
  let rest = first_odd ts l r
  if is_odd c then ok c else rest

abbrev pub mul_coef : Bool → Sign → Sign
mul_coef reversed s = if reversed then flip s else s

-- One round of the loop: `none` goes on to the next column.
unfoldable pub compare_column : Bool → Value → Value → Outcome (Option Sign)
unfolding first_odd
compare_column reversed l r =
    if is_null l
    then (do guard (is_null r) assertion; ok none)
    else (first_odd (a_bool ∷ a_int64 ∷ a_uint64 ∷ a_string ∷ []) l r
        >>= elim [ none ↦ ok none | some s ↦ ok (some (mul_coef reversed s)) ])

-- `desc.empty() ? false : desc[i]`
unfoldable pub is_reversed : List Bool → ℕ → Outcome Bool
is_reversed [] i = ok false
is_reversed (d ∷ ds) i = elim (get_elem? (d ∷ ds) i) [ none ↦ fail out_of_range | some b ↦ ok b ]

-- The loop from column `i` on.
unfoldable pub comparator_from : List Bool → ℕ → Row → Row → Outcome Sign
unfolding is_reversed compare_column
comparator_from desc i [] r = ok equal
comparator_from desc i (x ∷ l) [] = ok equal
comparator_from desc i (x ∷ l) (y ∷ r) = do
  reversed ← is_reversed desc i
  c ← compare_column reversed x y
  let rest = comparator_from desc (suc i) l r
  elim c [ none ↦ rest | some s ↦ ok s ]

-- `Comparator::operator()`
unfoldable pub comparator : Row → Row → List Bool → Outcome Sign
unfolding comparator_from
comparator lhs rhs desc = do
  guard (length lhs == length rhs) assertion
  comparator_from desc 0 lhs rhs

-- `compareRows`
unfoldable pub compare_rows : Row → Row → Outcome Sign
unfolding comparator
compare_rows lhs rhs = comparator lhs rhs []
