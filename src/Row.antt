-- ===== src/Row.antt =====
-- lib/sql/row.h, row.cpp and the column types of lib/sql/schema.h: values, rows, row ids, schemas.
-- A `std::string` is the list of its bytes. A `uint64_t` is a natural number and an `int64_t` an
-- integer; their ranges are stated where they matter (`Marshal.Fits`).
use relvec_db.Common.{ℕ, ◌≡◌, ◌↔◌, Bool, true, false, not, List, [], ◌∷◌, ◌==◌, ◌&&◌, arith}
use relvec_db.Common.Int.{ℤ, pos, negsuc}

-- `enum class Type`. (`Type` is a reserved word here.)
pub data ColumnType : Type 0 where
  boolean uint64 int64 varchar string vector : ColumnType

pub record ColumnSchema : Type 0 where
  pub name : List ℕ
  pub type : ColumnType
  pub len : ℕ

abbrev pub Schema : Type 0
Schema = List ColumnSchema

-- `std::variant<Null, bool, uint64_t, int64_t, std::string>`
pub data Value : Type 0 where
  null : Value
  boolean : Bool → Value
  uint64 : ℕ → Value
  int64 : ℤ → Value
  string : List ℕ → Value

abbrev pub Row : Type 0
Row = List Value

-- A page index and a row index, both `int32_t`.
pub record RowId : Type 0 where
  pub page_index : ℤ
  pub row_index : ℤ

-- `std::holds_alternative<Null>`
abbrev pub is_null : Value → Bool
is_null null = true
is_null (boolean b) = false
is_null (uint64 n) = false
is_null (int64 z) = false
is_null (string s) = false

-- `operator==` of the alternatives.
unfoldable pub bytes_eq : List ℕ → List ℕ → Bool
bytes_eq [] [] = true
bytes_eq [] (y ∷ t) = false
bytes_eq (x ∷ s) [] = false
bytes_eq (x ∷ s) (y ∷ t) = x == y && bytes_eq s t

-- `operator==` of a variant: the same alternative, with equal contents.
unfoldable pub value_eq : Value → Value → Bool
unfolding bytes_eq
value_eq null null = true
value_eq (boolean true) (boolean b) = b
value_eq (boolean false) (boolean b) = not b
value_eq (uint64 m) (uint64 n) = m == n
value_eq (int64 (pos m)) (int64 (pos n)) = m == n
value_eq (int64 (negsuc m)) (int64 (negsuc n)) = m == n
value_eq (string s) (string t) = bytes_eq s t
value_eq _ _ = false

-- `operator==` of two vectors of values.
unfoldable pub row_eq : Row → Row → Bool
unfolding value_eq
row_eq [] [] = true
row_eq [] (y ∷ r) = false
row_eq (x ∷ l) [] = false
row_eq (x ∷ l) (y ∷ r) = value_eq x y && row_eq l r

pub bytes_eq_iff : (s t : List ℕ) → (bytes_eq s t ≡ true) ↔ (s ≡ t)
unfolding bytes_eq
bytes_eq_iff [] [] = ground arith
bytes_eq_iff [] (y ∷ t) = ground arith
bytes_eq_iff (x ∷ s) [] = ground arith
bytes_eq_iff (x ∷ s) (y ∷ t) = ground (arith, bytes_eq_iff s t)

value_eq_iff : (u v : Value) → (value_eq u v ≡ true) ↔ (u ≡ v)
unfolding value_eq
value_eq_iff null null = ground arith
value_eq_iff (boolean true) (boolean b) = ground arith
value_eq_iff (boolean false) (boolean b) = ground arith
value_eq_iff (uint64 m) (uint64 n) = ground arith
value_eq_iff (int64 (pos m)) (int64 (pos n)) = ground arith
value_eq_iff (int64 (negsuc m)) (int64 (negsuc n)) = ground arith
value_eq_iff (string s) (string t) = ground (arith, bytes_eq_iff s t)
value_eq_iff _ _ = ground arith

pub row_eq_iff : (l r : Row) → (row_eq l r ≡ true) ↔ (l ≡ r)
unfolding row_eq
row_eq_iff [] [] = ground arith
row_eq_iff [] (y ∷ r) = ground arith
row_eq_iff (x ∷ l) [] = ground arith
row_eq_iff (x ∷ l) (y ∷ r) = ground (arith, value_eq_iff x y, row_eq_iff l r)
