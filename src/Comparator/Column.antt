-- ===== src/Comparator/Column.antt =====
-- lib/sql/comparator.cpp: one round of the loop of `Comparator::operator()`.
use relvec_db.Common.{◌≢◌, ◌≡◌, refl, Bool, true, false, Option, none, some, arith}
use relvec_db.Common.Outcome.{Outcome, ok, fail}
use relvec_db.Row.{Value, null, boolean, uint64, int64, string}
use relvec_db.Comparator.{
  Sign, less, equal, greater, flip, mul_coef, compare_column, compare_ℕ, compare_ℤ, compare_bool,
  compare_string,
}
use relvec_db.Comparator.Scalar.{
  compare_ℕ-IsOrder, compare_ℤ-IsOrder, compare_bool-IsOrder, compare_string-IsOrder,
}

-- The result with its sign turned, where there is one.
abbrev pub flip_column : Outcome (Option Sign) → Outcome (Option Sign)
flip_column (ok none) = ok none
flip_column (ok (some s)) = ok (some (flip s))
flip_column (fail e) = fail e

-- A pair of values that the assertions of `compareInstances` let through.
abbrev pub SameType : Value → Value → Type 0
SameType null null = Unit
SameType (boolean a) (boolean b) = Unit
SameType (uint64 a) (uint64 b) = Unit
SameType (int64 a) (int64 b) = Unit
SameType (string a) (string b) = Unit
SameType _ _ = ⊥

pub compare_column_self : (d : Bool) (v : Value) → compare_column d v v ≡ ok none
unfolding compare_column
compare_column_self d null = refl
compare_column_self d (boolean a) = ground (arith, compare_bool-IsOrder.equal_self a)
compare_column_self d (uint64 a) = ground (arith, compare_ℕ-IsOrder.equal_self a)
compare_column_self d (int64 a) = ground (arith, compare_ℤ-IsOrder.equal_self a)
compare_column_self d (string a) = ground (arith, compare_string-IsOrder.equal_self a)

pub eq_of_compare_column : (d : Bool) (u v : Value) → compare_column d u v ≡ ok none → u ≡ v
unfolding compare_column
eq_of_compare_column d null null h = refl
eq_of_compare_column d (boolean a) (boolean b) h =
    ground (arith, compare_bool-IsOrder.eq_of_equal a b)
eq_of_compare_column d (uint64 a) (uint64 b) h = ground (arith, compare_ℕ-IsOrder.eq_of_equal a b)
eq_of_compare_column d (int64 a) (int64 b) h = ground (arith, compare_ℤ-IsOrder.eq_of_equal a b)
eq_of_compare_column d (string a) (string b) h =
    ground (arith, compare_string-IsOrder.eq_of_equal a b)
eq_of_compare_column d _ _ h = cc

-- The loop goes on exactly where the column's values are equal.
pub compare_column-ne-equal : (d : Bool) (u v : Value) → compare_column d u v ≢ ok (some equal)
unfolding compare_column
compare_column-ne-equal d null null h = cc
compare_column-ne-equal d (boolean a) (boolean b) h = ground arith
compare_column-ne-equal d (uint64 a) (uint64 b) h = ground arith
compare_column-ne-equal d (int64 a) (int64 b) h = ground arith
compare_column-ne-equal d (string a) (string b) h = ground arith
compare_column-ne-equal d _ _ h = cc

pub compare_column-flip :
    (d : Bool) (u v : Value) → compare_column d v u ≡ flip_column (compare_column d u v)
unfolding compare_column
compare_column-flip d null null = refl
compare_column-flip d (boolean a) (boolean b) = ground (arith, compare_bool-IsOrder.flipped a b)
compare_column-flip d (uint64 a) (uint64 b) = ground (arith, compare_ℕ-IsOrder.flipped a b)
compare_column-flip d (int64 a) (int64 b) = ground (arith, compare_ℤ-IsOrder.flipped a b)
compare_column-flip d (string a) (string b) = ground (arith, compare_string-IsOrder.flipped a b)
compare_column-flip d _ _ = refl

pub compare_column_trans :
    (u v w : Value)
    → compare_column false u v ≡ ok (some less)
    → compare_column false v w ≡ ok (some less)
    → compare_column false u w ≡ ok (some less)
unfolding compare_column
compare_column_trans (boolean a) (boolean b) (boolean c) h k =
    ground (arith, compare_bool-IsOrder.less_trans a b c)
compare_column_trans (uint64 a) (uint64 b) (uint64 c) h k =
    ground (arith, compare_ℕ-IsOrder.less_trans a b c)
compare_column_trans (int64 a) (int64 b) (int64 c) h k =
    ground (arith, compare_ℤ-IsOrder.less_trans a b c)
compare_column_trans (string a) (string b) (string c) h k =
    ground (arith, compare_string-IsOrder.less_trans a b c)
compare_column_trans null null w h k = cc
compare_column_trans null _ w h k = cc
compare_column_trans _ _ _ h k = cc

-- Reversing the column turns the sign.
pub compare_column-reversed :
    (u v : Value) → compare_column true u v ≡ flip_column (compare_column false u v)
unfolding compare_column
compare_column-reversed null null = refl
compare_column-reversed (boolean a) (boolean b) = ground arith
compare_column-reversed (uint64 a) (uint64 b) = ground arith
compare_column-reversed (int64 a) (int64 b) = ground arith
compare_column-reversed (string a) (string b) = ground arith
compare_column-reversed _ _ = refl

-- What a column's comparison returns for the sign of its values.
abbrev column_sign : Bool → Sign → Option Sign
column_sign d less = some (mul_coef d less)
column_sign d equal = none
column_sign d greater = some (mul_coef d greater)

pub compare_column_total :
    (d : Bool) (u v : Value) → SameType u v → (o : Option Sign) × (compare_column d u v ≡ ok o)
unfolding compare_column
compare_column_total d null null t = (none, refl)
compare_column_total d (boolean a) (boolean b) t = (column_sign d (compare_bool a b), ground arith)
compare_column_total d (uint64 a) (uint64 b) t = (column_sign d (compare_ℕ a b), ground arith)
compare_column_total d (int64 a) (int64 b) t = (column_sign d (compare_ℤ a b), ground arith)
compare_column_total d (string a) (string b) t = (column_sign d (compare_string a b), ground arith)
compare_column_total d _ _ t = absurd t
