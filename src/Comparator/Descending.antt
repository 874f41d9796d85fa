-- ===== src/Comparator/Descending.antt =====
-- lib/sql/comparator.cpp: the `desc` argument, by which ORDER BY ... DESC sorts.
use relvec_db.Common.{
  ℕ, zero, suc, ◌≡◌, refl, true, [], ◌∷◌, some, arith, length, replicate, get_elem?, ◌+◌, ◌<◌,
}
use relvec_db.Common.Outcome.{ok}
use relvec_db.Row.{Row}
use relvec_db.Comparator.{is_reversed, comparator_from, comparator, compare_rows}
use relvec_db.Comparator.Column.{compare_column-reversed}
use relvec_db.Comparator.Order.{flip_outcome}

get_elem?-replicate : (n i : ℕ) → i < n → get_elem? (replicate n true) i ≡ some true
get_elem?-replicate zero i h = absurd (omega arith)
get_elem?-replicate (suc n) zero h = refl
get_elem?-replicate (suc n) (suc i) h = get_elem?-replicate n i (omega arith)

is_reversed-replicate : (n i : ℕ) → i < n → is_reversed (replicate n true) i ≡ ok true
unfolding is_reversed
is_reversed-replicate zero i h = absurd (omega arith)
is_reversed-replicate (suc n) zero h = refl
is_reversed-replicate (suc n) (suc i) h = ground (arith, get_elem?-replicate n i (omega arith))

from-replicate :
    (n i : ℕ) (l r : Row)
    → i + length l ≡ n
    → comparator_from (replicate n true) i l r ≡ flip_outcome (comparator_from [] i l r)
unfolding comparator_from
from-replicate n i [] r e = refl
from-replicate n i (x ∷ l) [] e = refl
from-replicate n i (x ∷ l) (y ∷ r) e = ground (
  arith,
  is_reversed-replicate n i (omega arith),
  compare_column-reversed x y,
  from-replicate n (suc i) l r (omega arith),
)

-- With every column marked as descending, the comparator returns the opposite of the ascending
-- result, or the same fault.
pub comparator-descending :
    (l r : Row) → comparator l r (replicate (length l) true) ≡ flip_outcome (compare_rows l r)
unfolding comparator compare_rows
comparator-descending l r = ground (arith, from-replicate (length l) 0 l r (omega arith))
