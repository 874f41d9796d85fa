-- ===== src/Query/Join/Rows.antt =====
-- lib/sql/interpreter.cpp, `executeJoin`: the values of the joined rows.
use relvec_db.Common.{
  suc, ◌≡◌, refl, ap, sym, inl, inr, false, Bool-cases, Option, none, some, [], ◌∷◌, if◌then◌else◌,
  length, All, arith,
}
use relvec_db.Common.Outcome.{ok}
use relvec_db.Row.{ColumnSchema, Schema, Value, Row}
use relvec_db.Query.Join.{column_eq, right_columns, pick_value, join_row, result_columns}
use relvec_db.Query.Join.Columns.{
  column_eq-eq, value_at, extract_value-value_at, member, Has, value_at-not_member,
  member-append_false, member-right_columns,
}

abbrev pub first_some : Option Value → Option Value → Option Value
first_some none o = o
first_some (some v) o = some v

module _ (left right : Schema) (l r : Row) (el : length l ≡ length left)
    (er : length r ≡ length right) where
  -- The value of the joined row at a column: from the left row, or else from the right one.
  abbrev pub joined_value : ColumnSchema → Option Value
  joined_value c = first_some (value_at l left c) (value_at r right c)

  pub joined_value-not_member :
      (c : ColumnSchema) → member (result_columns left right) c ≡ false → joined_value c ≡ none
  joined_value-not_member c m =
      let (ml, mr) = member-append_false left (right_columns left right) c m in
      rw (value_at-not_member l left c ml)
        (value_at-not_member r right c (member-right_columns left right c ml mr))

  pick-first_some :
      (o p : Option Value) {v : Value} → first_some o p ≡ some v → pick_value o (ok p) ≡ ok v
  unfolding pick_value
  pick-first_some none none e = cc
  pick-first_some none (some w) e = ground (arith, e)
  pick-first_some (some w) p e = ground (arith, e)

  -- What is made of the columns of the result.
  pub record IsRow (columns : Schema) (row : Row) : Type 0 where
    pub made : join_row left right columns l r ≡ ok row
    pub same_length : length row ≡ length columns
    pub values :
        (c : ColumnSchema)
        → value_at row columns c ≡ (if member columns c then joined_value c else none)

  pub join_row-IsRow :
      (columns : Schema) → All (λ c. Has (joined_value c)) columns → (row : Row) × IsRow columns row
  unfolding join_row value_at member
  join_row-IsRow [] h = ([], record { made = refl; same_length = refl; values = λ c. refl })
  join_row-IsRow (d ∷ columns) h =
      let (row, rest) = join_row-IsRow columns h.1 in
      let (v, e) = h.0 in
      (
        v ∷ row,
        record {
          made =
              rw
                (
                  extract_value-value_at l left d el,
                  extract_value-value_at r right d er,
                  pick-first_some (value_at l left d) (value_at r right d) e,
                  rest.made,
                )
                refl;
          same_length = ap suc rest.same_length;
          values = λ c. elim (Bool-cases (column_eq d c)) [
            | inl same ↦ rw same (sym (rw (← column_eq-eq d c same) e))
            | inr apart ↦ rw apart (rest.values c)
          ];
        },
      )
