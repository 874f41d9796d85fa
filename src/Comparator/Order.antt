-- ===== src/Comparator/Order.antt =====
-- lib/sql/comparator.cpp: `compareRows` is an order of the rows of one shape.
use relvec_db.Common.{ℕ, suc, ◌≡◌, refl, ap, false, [], ◌∷◌, Option, none, some, arith, length, ◌↔◌}
use relvec_db.Common.Outcome.{Outcome, ok, fail, ◌>>=◌}
use relvec_db.Row.{Row}
use relvec_db.Comparator.{Sign, less, equal, flip, comparator_from, compare_rows, compare_column}
use relvec_db.Comparator.Column.{
  SameType, compare_column_self, eq_of_compare_column, compare_column-flip, compare_column_trans,
  compare_column_total, compare_column-ne-equal,
}

-- Rows whose columns hold the same alternatives of `Value`.
abbrev pub SameShape : Row → Row → Type 0
SameShape [] [] = Unit
SameShape (x ∷ l) (y ∷ r) = SameType x y × SameShape l r
SameShape _ _ = ⊥

-- The result with its sign turned, where there is one.
abbrev pub flip_outcome : Outcome Sign → Outcome Sign
flip_outcome (ok s) = ok (flip s)
flip_outcome (fail e) = fail e

-- The loop over two rows, with no column reversed and the column's comparison shut.
loop : Row → Row → Outcome Sign
loop [] r = ok equal
loop (x ∷ l) [] = ok equal
loop (x ∷ l) (y ∷ r) = do
  c ← compare_column false x y
  let rest = loop l r
  elim c [ none ↦ rest | some s ↦ ok s ]

from-loop : (i : ℕ) (l r : Row) → comparator_from [] i l r ≡ loop l r
unfolding comparator_from loop
from-loop i [] r = refl
from-loop i (x ∷ l) [] = refl
from-loop i (x ∷ l) (y ∷ r) = ground (arith, from-loop (suc i) l r)

loop_self : (r : Row) → loop r r ≡ ok equal
unfolding loop
loop_self [] = refl
loop_self (x ∷ r) = ground (arith, compare_column_self false x, loop_self r)

eq_of_loop : (l r : Row) → length l ≡ length r → loop l r ≡ ok equal → l ≡ r
unfolding loop
eq_of_loop [] [] e h = refl
eq_of_loop [] (y ∷ r) e h = absurd (omega arith)
eq_of_loop (x ∷ l) [] e h = absurd (omega arith)
eq_of_loop (x ∷ l) (y ∷ r) e h = ground (
  arith,
  compare_column-ne-equal false x y,
  eq_of_compare_column false x y,
  eq_of_loop l r (omega arith),
)

loop-flip : (l r : Row) → loop r l ≡ flip_outcome (loop l r)
unfolding loop
loop-flip [] [] = refl
loop-flip [] (y ∷ r) = refl
loop-flip (x ∷ l) [] = refl
loop-flip (x ∷ l) (y ∷ r) = ground (arith, compare_column-flip false x y, loop-flip l r)

loop_trans : (l m r : Row) → loop l m ≡ ok less → loop m r ≡ ok less → loop l r ≡ ok less
unfolding loop
loop_trans [] m r h k = cc
loop_trans (x ∷ l) [] r h k = cc
loop_trans (x ∷ l) (y ∷ m) [] h k = cc
loop_trans (x ∷ l) (y ∷ m) (z ∷ r) h k = ground (
  arith,
  compare_column_trans x y z,
  eq_of_compare_column false x y,
  eq_of_compare_column false y z,
  loop_trans l m r,
)

or_else : Option Sign → Sign → Sign
or_else none s = s
or_else (some t) s = t

loop_total : (l r : Row) → SameShape l r → (s : Sign) × (loop l r ≡ ok s)
unfolding loop or_else
loop_total [] [] t = (equal, refl)
loop_total (x ∷ l) (y ∷ r) (t, ts) =
    let (o, e) = compare_column_total false x y t in
    let (s, e') = loop_total l r ts in (or_else o s, ground (arith, e, e'))
loop_total _ _ t = absurd t

SameShape-length : (l r : Row) → SameShape l r → length l ≡ length r
SameShape-length [] [] t = refl
SameShape-length (x ∷ l) (y ∷ r) (t, ts) = ap suc (SameShape-length l r ts)
SameShape-length _ _ t = absurd t

compare_rows-loop : (l r : Row) → length l ≡ length r → compare_rows l r ≡ loop l r
unfolding compare_rows
compare_rows-loop l r e = ground (arith, from-loop 0 l r)

length_of_compare_rows : (l r : Row) (s : Sign) → compare_rows l r ≡ ok s → length l ≡ length r
unfolding compare_rows
length_of_compare_rows l r s h = ground arith

-- Two rows compare as equal exactly when they are the same row.
pub compare_rows-equal : (l r : Row) → (compare_rows l r ≡ ok equal) ↔ (l ≡ r)
compare_rows-equal l r = (
  λ h.
      let e = length_of_compare_rows l r equal h in
      eq_of_loop l r e (rw (compare_rows-loop l r e) at h),
  λ e. rw e (rw (compare_rows-loop r r refl) (loop_self r)),
)

-- Swapping the rows turns the sign, and the comparison fails exactly when the first order does,
-- with the same fault.
pub compare_rows-flip : (l r : Row) → compare_rows r l ≡ flip_outcome (compare_rows l r)
unfolding compare_rows
compare_rows-flip l r = ground (arith, from-loop 0 l r, from-loop 0 r l, loop-flip l r)

-- Less-than is transitive: where the first row is less than the second and that less than the
-- third, the first is less than the third.
pub compare_rows_trans :
    (l m r : Row)
    → compare_rows l m ≡ ok less
    → compare_rows m r ≡ ok less
    → compare_rows l r ≡ ok less
unfolding compare_rows
compare_rows_trans l m r h k =
    ground (arith, from-loop 0 l r, from-loop 0 l m, from-loop 0 m r, loop_trans l m r)

-- Rows of one shape always compare: no assertion of the comparator fails.
pub compare_rows_total : (l r : Row) → SameShape l r → (s : Sign) × (compare_rows l r ≡ ok s)
compare_rows_total l r t =
    let (s, e) = loop_total l r t in (s, rw (compare_rows-loop l r (SameShape-length l r t)) e)
