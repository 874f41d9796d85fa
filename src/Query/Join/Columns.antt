-- ===== src/Query/Join/Columns.antt =====
-- lib/sql/interpreter.cpp, `executeJoin`: the columns of the joined row, and the values there.
use relvec_db.Common.{
  ◌≡◌, refl, sym, ◌∙◌, inl, inr, Bool, true, false, Bool-cases, Option, none, some, [], ◌∷◌, ◌++◌,
  if◌then◌else◌, length, arith,
}
use relvec_db.Common.Outcome.{ok}
use relvec_db.Row.{ColumnType, ColumnSchema, Schema, Value, Row, bytes_eq_iff}
use relvec_db.Query.Join.{type_number, column_eq, extract_value, is_common, right_columns}

type_number-eq : (t u : ColumnType) → type_number t ≡ type_number u → t ≡ u
type_number-eq ColumnType.boolean u e = ground arith
type_number-eq ColumnType.uint64 u e = ground arith
type_number-eq ColumnType.int64 u e = ground arith
type_number-eq ColumnType.varchar u e = ground arith
type_number-eq ColumnType.string u e = ground arith
type_number-eq ColumnType.vector u e = ground arith

-- Columns that are equal for `operator==` are the same.
pub column_eq-eq : (c d : ColumnSchema) → column_eq c d ≡ true → c ≡ d
unfolding column_eq
column_eq-eq c d e = ground (arith, bytes_eq_iff c.name d.name, type_number-eq c.type d.type)

pub column_eq_refl : (c : ColumnSchema) → column_eq c c ≡ true
unfolding column_eq
column_eq_refl c = ground (arith, bytes_eq_iff c.name c.name)

-- The value of a row at the first column that is equal.
unfoldable pub value_at : Row → Schema → ColumnSchema → Option Value
value_at row [] column = none
value_at [] (c ∷ schema) column = none
value_at (v ∷ row) (c ∷ schema) column =
    if column_eq c column then some v else value_at row schema column

pub extract_value-value_at :
    (row : Row) (schema : Schema) (column : ColumnSchema)
    → length row ≡ length schema
    → extract_value row schema column ≡ ok (value_at row schema column)
unfolding extract_value value_at
extract_value-value_at row [] column e = refl
extract_value-value_at [] (c ∷ schema) column e = absurd (omega (arith, e))
extract_value-value_at (v ∷ row) (c ∷ schema) column e = elim (Bool-cases (column_eq c column)) [
  | inl same ↦ rw same refl
  | inr apart ↦ rw apart (extract_value-value_at row schema column (omega (arith, e)))
]

-- Whether a schema has a column.
unfoldable pub member : Schema → ColumnSchema → Bool
member [] column = false
member (c ∷ schema) column = if column_eq c column then true else member schema column

column_eq_comm : (c d : ColumnSchema) → column_eq c d ≡ column_eq d c
column_eq_comm c d = elim (Bool-cases (column_eq c d)) [
  | inl same ↦ same ∙ sym (rw (column_eq-eq c d same) (column_eq_refl d))
  | inr apart ↦ elim (Bool-cases (column_eq d c)) [
    | inr apart' ↦ apart ∙ sym apart'
    | inl same ↦ cc (apart, rw (column_eq-eq d c same) at apart, column_eq_refl c)
  ]
]

pub is_common-member : (left : Schema) (c : ColumnSchema) → is_common left c ≡ member left c
unfolding is_common member
is_common-member [] c = refl
is_common-member (d ∷ left) c = rw (column_eq_comm c d, is_common-member left c) refl

abbrev pub Has : Option Value → Type 0
Has o = (v : Value) × (o ≡ some v)

pub value_at-member :
    (row : Row) (schema : Schema) (c : ColumnSchema)
    → length row ≡ length schema
    → member schema c ≡ true
    → Has (value_at row schema c)
unfolding member value_at
value_at-member row [] c e m = cc
value_at-member [] (d ∷ schema) c e m = absurd (omega (arith, e))
value_at-member (v ∷ row) (d ∷ schema) c e m = elim (Bool-cases (column_eq d c)) [
  | inl same ↦ (v, rw same refl)
  | inr apart ↦
      let (w, ew) = value_at-member row schema c (omega (arith, e)) (rw apart at m) in
      (w, rw apart ew)
]

pub value_at-not_member :
    (row : Row) (schema : Schema) (c : ColumnSchema)
    → member schema c ≡ false
    → value_at row schema c ≡ none
unfolding member value_at
value_at-not_member row [] c m = refl
value_at-not_member [] (d ∷ schema) c m = refl
value_at-not_member (v ∷ row) (d ∷ schema) c m = elim (Bool-cases (column_eq d c)) [
  | inl same ↦ cc (rw same at m)
  | inr apart ↦ rw apart (value_at-not_member row schema c (rw apart at m))
]

pub member-append_false :
    (s t : Schema) (c : ColumnSchema)
    → member (s ++ t) c ≡ false
    → (member s c ≡ false) × (member t c ≡ false)
unfolding member
member-append_false [] t c m = (refl, m)
member-append_false (d ∷ s) t c m = elim (Bool-cases (column_eq d c)) [
  | inl same ↦ cc (rw same at m)
  | inr apart ↦ rw apart (member-append_false s t c (rw apart at m))
]

-- A column that is neither on the left nor behind it is not on the right.
pub member-right_columns :
    (left right : Schema) (c : ColumnSchema)
    → member left c ≡ false
    → member (right_columns left right) c ≡ false
    → member right c ≡ false
unfolding member right_columns
member-right_columns left [] c m n = refl
member-right_columns left (d ∷ right) c m n = elim (Bool-cases (column_eq d c)) [
  | inl same ↦
      let apart : is_common left d ≡ false =
        rw (column_eq-eq d c same) (is_common-member left c ∙ m) in
      cc (rw (apart, same) at n)
  | inr apart ↦ rw apart (elim (Bool-cases (is_common left d)) [
    | inl common ↦ member-right_columns left right c m (rw common at n)
    | inr new ↦ member-right_columns left right c m (rw (new, apart) at n)
  ])
]
