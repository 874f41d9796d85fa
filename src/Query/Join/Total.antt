-- ===== src/Query/Join/Total.antt =====
-- lib/sql/interpreter.cpp, `executeJoin`: the join returns, and its rows are those of pairs.
use relvec_db.Common.{
  ◌≡◌, refl, Bool, true, false, ◌&&◌, Option, none, some, List, [], ◌∷◌, ◌++◌, if◌then◌else◌,
  length, All,
}
use relvec_db.Common.Outcome.{Outcome, ok, ◌>>=◌}
use relvec_db.Comparator.{comparator, compare_rows}
use relvec_db.Comparator.Column.{SameType}
use relvec_db.Comparator.Order.{compare_rows_total}
use relvec_db.Row.{Schema, Value, Row}
use relvec_db.Query.Join.{
  common_columns, value_of, is_equal, is_match, join_pair, join_with, join_rows, result_columns,
}
use relvec_db.Query.Join.Columns.{value_at, extract_value-value_at}
use relvec_db.Query.Join.Rows.{join_row-IsRow}
use relvec_db.Query.Join.Pair.{result_columns-Has}
use relvec_db.Query.Join.Sound.{HasLength, IsOfPair, join_rows-IsOfPair}

-- Both rows have a value there, and the values are of one type.
abbrev pub Compares : Option Value → Option Value → Type 0
Compares none o = ⊥
Compares (some x) none = ⊥
Compares (some x) (some y) = SameType x y

-- The values of two rows under the columns that they share are of the same types.
abbrev pub IsComparable : Schema → Schema → Row → Row → Type 0
IsComparable left right l r =
    All (λ c. Compares (value_at l left c) (value_at r right c)) (common_columns left right)

Compares-step :
    (o p : Option Value) (rest : Outcome Bool) {b : Bool}
    → Compares o p
    → rest ≡ ok b
    → (d : Bool) × ((do
      x ← value_of o
      y ← value_of p
      sign ← comparator (x ∷ []) (y ∷ []) []
      e ← rest
      ok (is_equal sign && e))
        ≡ ok d)
Compares-step none p rest h e = absurd h
Compares-step (some x) none rest h e = absurd h
Compares-step (some x) (some y) rest {b} h e =
    let (sign, es) = compare_rows_total (x ∷ []) (y ∷ []) (h, tt) in
    let compared : comparator (x ∷ []) (y ∷ []) [] ≡ ok sign = unfold compare_rows in es in
    (is_equal sign && b, rw (compared, e) refl)

if-ok :
    (b : Bool) (rows : List Row)
    → (if b then Outcome.ok rows else ok []) ≡ ok (if b then rows else [])
if-ok true rows = refl
if-ok false rows = refl

module _ (left right : Schema) where
  module _ (l r : Row) (el : length l ≡ length left) (er : length r ≡ length right) where
    is_match_total :
        (common : Schema)
        → All (λ c. Compares (value_at l left c) (value_at r right c)) common
        → (b : Bool) × (is_match left right common l r ≡ ok b)
    unfolding is_match
    is_match_total [] h = (true, refl)
    is_match_total (c ∷ common) h =
        let (b, e) = is_match_total common h.1 in
        let (d, ed) =
          Compares-step (value_at l left c) (value_at r right c) (is_match left right common l r)
            h.0 e in
        (d, rw (extract_value-value_at l left c el, extract_value-value_at r right c er) ed)

    join_pair_total :
        IsComparable left right l r → (rows : List Row) × (join_pair left right l r ≡ ok rows)
    unfolding join_pair
    join_pair_total h =
        let (b, e) = is_match_total (common_columns left right) h in
        let (row, is) =
          join_row-IsRow left right l r el er (result_columns left right)
            (result_columns-Has left right l r el er) in
        (if b then row ∷ [] else [], rw (e, is.made) (if-ok b (row ∷ [])))

  join_with_total :
      (l : Row) (right_rows : List Row)
      → length l ≡ length left
      → All (HasLength (length right)) right_rows
      → All (IsComparable left right l) right_rows
      → (rows : List Row) × (join_with left right l right_rows ≡ ok rows)
  unfolding join_with
  join_with_total l [] el hr h = ([], refl)
  join_with_total l (r ∷ right_rows) el hr h =
      let (first, ef) = join_pair_total l r el hr.0 h.0 in
      let (rest, er) = join_with_total l right_rows el hr.1 h.1 in (first ++ rest, rw (ef, er) refl)

  join_rows_returns :
      (left_rows right_rows : List Row)
      → All (HasLength (length left)) left_rows
      → All (HasLength (length right)) right_rows
      → All (λ l. All (IsComparable left right l) right_rows) left_rows
      → (rows : List Row) × (join_rows left right left_rows right_rows ≡ ok rows)
  unfolding join_rows
  join_rows_returns [] right_rows hl hr h = ([], refl)
  join_rows_returns (l ∷ left_rows) right_rows hl hr h =
      let (first, ef) = join_with_total l right_rows hl.0 hr h.0 in
      let (rest, er) = join_rows_returns left_rows right_rows hl.1 hr h.1 in
      (first ++ rest, rw (ef, er) refl)

  -- Where the rows of both tables have the lengths of their schemas, and the values of any two
  -- rows under the columns that the schemas share are of the same types, the join returns. Each
  -- row of it comes from a row on the left and one on the right that agree on the shared columns,
  -- and under every column it has the value of the left row or, where that has none, of the right
  -- row.
  pub join_rows_total :
      (left_rows right_rows : List Row)
      → All (HasLength (length left)) left_rows
      → All (HasLength (length right)) right_rows
      → All (λ l. All (IsComparable left right l) right_rows) left_rows
      → (rows : List Row) × (join_rows left right left_rows right_rows ≡ ok rows)
        × All (IsOfPair left right left_rows right_rows) rows
  join_rows_total left_rows right_rows hl hr h =
      let (rows, e) = join_rows_returns left_rows right_rows hl hr h in
      (rows, e, join_rows-IsOfPair left right left_rows right_rows hl hr e)
