-- ===== src/Catalog/Rows.antt =====
-- lib/sql/catalog.cpp: the row of a column, and the column of that row.
use relvec_db.Common.{
  ℕ, ◌+◌, ◌%◌, ◌^◌, ◌<◌, ◌≡◌, ◌≢◌, refl, ap, List, some, [], ◌++◌, arith, length, length-append,
}
use relvec_db.Common.Outcome.{ok}
use relvec_db.Row.{ColumnType, ColumnSchema, Row}
use relvec_db.Marshal.{serialize_row}
use relvec_db.Marshal.Words.{word_bytes, length-word_bytes}
use relvec_db.Marshal.Columns.{type_bytes}
use relvec_db.Marshal.RoundTrip.{FitsRow, row_bytes, written, length-written, serialize_row-written}
use relvec_db.Catalog.{fixed_schema, type_code, type_of, column_row, column_of}

-- The number of a type.
abbrev pub code_of : ColumnType → ℕ
code_of ColumnType.string = 0
code_of ColumnType.boolean = 1
code_of ColumnType.uint64 = 2
code_of ColumnType.int64 = 3
code_of ColumnType.varchar = 4
code_of ColumnType.vector = 5

abbrev pub row_of : ColumnSchema → Row
row_of column = column_row column (code_of column.type)

-- The number of bytes of that row.
abbrev pub row_space : ColumnSchema → ℕ
row_space column = 25 + length column.name

-- A column that a row of the catalog can hold.
pub record IsSaved (column : ColumnSchema) : Type 0 where
  pub type_saved : column.type ≢ ColumnType.vector
  pub name_short : row_space column < 256
  pub length_fits : column.len < 2 ^ 32

module _ (column : ColumnSchema) (h : IsSaved column) where
  pub type_code-code_of : type_code column.type ≡ some (code_of column.type)
  type_code-code_of = saved_code column.type h.type_saved
    where
      saved_code : (t : ColumnType) → t ≢ ColumnType.vector → type_code t ≡ some (code_of t)
      saved_code ColumnType.vector ne = absurd (ne refl)
      saved_code ColumnType.string ne = refl
      saved_code ColumnType.boolean ne = refl
      saved_code ColumnType.uint64 ne = refl
      saved_code ColumnType.int64 ne = refl
      saved_code ColumnType.varchar ne = refl

  type_of-code_of : type_of (code_of column.type % 2 ^ 32) ≡ column.type
  type_of-code_of = saved_type column.type h.type_saved
    where
      saved_type : (t : ColumnType) → t ≢ ColumnType.vector → type_of (code_of t % 2 ^ 32) ≡ t
      saved_type ColumnType.vector ne = absurd (ne refl)
      saved_type ColumnType.string ne = refl
      saved_type ColumnType.boolean ne = refl
      saved_type ColumnType.uint64 ne = refl
      saved_type ColumnType.int64 ne = refl
      saved_type ColumnType.varchar ne = refl

  -- The row of a column stands for it.
  pub column_of-row_of : column_of (row_of column) ≡ ok column
  unfolding column_of
  column_of-row_of = rw (type_of-code_of) (ap ok (rw (small column.len h.length_fits) refl))
    where
      small : (n : ℕ) → n < 2 ^ 32 → n % 2 ^ 32 ≡ n
      small n l = omega arith

  code_small : code_of column.type < 2 ^ 64
  code_small = ground arith

  pub row_of-FitsRow : FitsRow fixed_schema (row_of column)
  row_of-FitsRow = (omega (arith, h.name_short), (code_small, (omega (arith, h.length_fits), tt)))

  row_bytes-length : length (row_bytes fixed_schema (row_of column)) ≡ 17 + length column.name
  unfolding row_bytes type_bytes
  row_bytes-length = omega (
    arith,
    length-append column.name (words ++ (word_bytes 8 column.len ++ [])),
    length-append words (word_bytes 8 column.len ++ []),
    length-append (word_bytes 8 column.len) [],
    length-word_bytes 8 (code_of column.type),
    length-word_bytes 8 column.len,
  )
    where
      words : List ℕ
      words = word_bytes 8 (code_of column.type)

  -- The bytes of that row.
  pub row_of-bytes :
      (bytes : List ℕ) × (serialize_row fixed_schema (row_of column) ≡ ok bytes)
      × (length bytes ≡ row_space column)
  row_of-bytes = (
    written fixed_schema (row_of column),
    serialize_row-written fixed_schema (row_of column) row_of-FitsRow (omega arith),
    omega (arith, length-written fixed_schema (row_of column), row_bytes-length),
  )
