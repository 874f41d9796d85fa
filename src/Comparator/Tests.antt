-- ===== src/Comparator/Tests.antt =====
-- Concrete comparisons, and the laws of lib/sql/comparator.cpp at concrete rows.
use relvec_db.Common.{◌≡◌, refl, true, false, [], ◌∷◌}
use relvec_db.Common.Int.{pos, negsuc}
use relvec_db.Common.Outcome.{ok, fail, assertion}
use relvec_db.Row.{Row, null, uint64, int64, string}
use relvec_db.Comparator.{less, greater, comparator, compare_rows, compare_ℤ, compare_string}
use relvec_db.Comparator.Order.{flip_outcome, compare_rows-flip, compare_rows_trans}

abbrev low : Row
low = int64 (negsuc 4) ∷ string (b'a' ∷ []) ∷ null ∷ []

abbrev mid : Row
mid = int64 (negsuc 4) ∷ string (b'a' ∷ b'b' ∷ []) ∷ null ∷ []

abbrev high : Row
high = int64 (pos 3) ∷ string [] ∷ null ∷ []

low-mid : compare_rows low mid ≡ ok less
unfolding compare_rows compare_string compare_ℤ
low-mid = refl

mid-high : compare_rows mid high ≡ ok less
unfolding compare_rows compare_string compare_ℤ
mid-high = refl

-- A NULL against a value fails the assertion.
null_value : compare_rows (null ∷ []) (uint64 0 ∷ []) ≡ fail assertion
unfolding compare_rows
null_value = refl

second_reversed : comparator low mid (false ∷ true ∷ false ∷ []) ≡ ok greater
unfolding comparator compare_string compare_ℤ
second_reversed = refl

compare_rows-flip_example : compare_rows mid low ≡ flip_outcome (compare_rows low mid)
compare_rows-flip_example = compare_rows-flip low mid

compare_rows_trans_example : compare_rows low high ≡ ok less
compare_rows_trans_example = compare_rows_trans low mid high low-mid mid-high
