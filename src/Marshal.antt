-- ===== src/Marshal.antt =====
-- lib/sql/marshal.cpp: rows as bytes, by the schema of a table.
-- What the source writes through a pointer is the list of the bytes written, in order; a read
-- through a pointer takes the bytes from there on.
pub mod Words
pub mod Nulls
pub mod Columns
pub mod RoundTrip
pub mod Space
pub mod Reads
pub mod LongString
mod Tests
use relvec_db.Common.{
  ℕ, zero, suc, ◌+◌, ◌-◌, ◌/◌, ◌%◌, ◌^◌, ◌<◌, ◌≡◌, Bool, true, false, List, [], ◌∷◌, ◌++◌, Option,
  none, some, ltb, leb, ◌==◌, length, get_elem?, take, drop, replicate, if◌then◌else◌,
}
use relvec_db.Common.Int.{ℤ}
use relvec_db.Common.Outcome.{
  Outcome, ok, fail, out_of_range, bad_variant, assertion, ◌>>=◌, ◌>>◌, guard,
}
use relvec_db.Row.{
  ColumnSchema, ColumnType, Schema, Value, null, boolean, uint64, int64, string, Row, is_null,
}
use relvec_db.Marshal.Words.{word_bytes, read_word, pattern_of, signed_of, bit_at}

-- The `switch` of `calculateFixedRowSpace`: the fixed part of a column that is not null.
unfoldable pub type_space : ColumnType → ℕ → Outcome ℕ
type_space ColumnType.boolean len = ok 1
type_space ColumnType.uint64 len = ok 8
type_space ColumnType.int64 len = ok 8
type_space ColumnType.varchar len = ok len
type_space ColumnType.string len = ok 1
type_space ColumnType.vector len = fail assertion

-- The loop, with `nulls` shifted right by the columns that are behind it.
unfoldable pub fixed_space_from : Schema → ℕ → ℕ → Outcome ℕ
unfolding type_space
fixed_space_from [] nulls result = ok result
fixed_space_from (column ∷ schema) nulls result = do
  space ← if nulls % 2 == 1 then ok 0 else type_space column.type column.len
  fixed_space_from schema (nulls / 2) (result + space)

-- `Marshal::calculateFixedRowSpace`
unfoldable pub calculate_fixed_row_space : Schema → ℕ → Outcome ℕ
unfolding fixed_space_from
calculate_fixed_row_space schema nulls = fixed_space_from schema nulls 8

-- The constructor of `Marshal`: the fixed row space that it stores.
unfoldable pub new_marshal : Schema → Outcome ℕ
unfolding calculate_fixed_row_space
new_marshal schema = do
  fixed_row_space ← calculate_fixed_row_space schema 0
  guard (leb (length schema) 64) assertion
  ok fixed_row_space

-- `Marshal::getFixedRowSpace`, of the marshal of the schema.
unfoldable pub get_fixed_row_space : Schema → Outcome ℕ
unfolding new_marshal
get_fixed_row_space schema = new_marshal schema

-- `nulls |= (1UL << index)` for each null. Each index comes once, so its bit is still clear.
unfoldable pub nulls_from : ℕ → Row → ℕ
nulls_from index [] = 0
nulls_from index (v ∷ row) = (if is_null v then 2 ^ index else 0) + nulls_from (suc index) row

-- `Marshal::getNulls`
unfoldable pub get_nulls : Row → ℕ
unfolding nulls_from
get_nulls row = nulls_from 0 row

-- `std::get<T>(row[index])`, by the alternative. Past the end of the row it is a fault.
unfoldable pub get_value : Row → ℕ → Outcome Value
get_value row index = elim (get_elem? row index) [ none ↦ fail out_of_range | some v ↦ ok v ]

unfoldable pub get_bool : Value → Outcome Bool
get_bool (boolean b) = ok b
get_bool _ = fail bad_variant

unfoldable pub get_uint64 : Value → Outcome ℕ
get_uint64 (uint64 n) = ok n
get_uint64 _ = fail bad_variant

unfoldable pub get_int64 : Value → Outcome ℤ
get_int64 (int64 z) = ok z
get_int64 _ = fail bad_variant

unfoldable pub get_string : Value → Outcome (List ℕ)
get_string (string s) = ok s
get_string _ = fail bad_variant

-- The `switch` of `getRowSpace`: only a string has a part of its own length.
unfoldable pub string_space : ColumnType → Row → ℕ → Outcome ℕ
unfolding get_value get_string
string_space ColumnType.string row index = do
  v ← get_value row index
  s ← get_string v
  ok (length s)
string_space _ row index = ok 0

-- The loop of `getRowSpace`.
unfoldable pub string_space_from : ℕ → Row → ℕ → Schema → ℕ → Outcome ℕ
unfolding bit_at string_space
string_space_from nulls row index [] result = ok result
string_space_from nulls row index (column ∷ schema) result = do
  space ← if bit_at nulls index then ok 0 else string_space column.type row index
  string_space_from nulls row (suc index) schema (result + space)

-- `Marshal::getRowSpace`
unfoldable pub get_row_space : Schema → Row → Outcome ℕ
unfolding calculate_fixed_row_space get_nulls string_space_from
get_row_space schema row = do
  let nulls = get_nulls row
  result ← calculate_fixed_row_space schema nulls
  string_space_from nulls row 0 schema result

-- The `switch` of `serializeRow`. A `memset` by `length - str.size()` below zero writes far past the
-- page, a fault. A column of type vector writes nothing.
unfoldable pub serialize_type : ColumnType → ℕ → Row → ℕ → Outcome (List ℕ)
unfolding get_value get_bool get_uint64 get_int64 get_string word_bytes pattern_of
serialize_type ColumnType.boolean len row index = do
  v ← get_value row index
  b ← get_bool v
  ok ((if b then 1 else 0) ∷ [])
serialize_type ColumnType.uint64 len row index = do
  v ← get_value row index
  n ← get_uint64 v
  ok (word_bytes 8 n)
serialize_type ColumnType.int64 len row index = do
  v ← get_value row index
  z ← get_int64 v
  ok (word_bytes 8 (pattern_of z))
serialize_type ColumnType.varchar len row index = do
  v ← get_value row index
  s ← get_string v
  guard (leb (length s) len) out_of_range
  ok (s ++ replicate (len - length s) 0)
serialize_type ColumnType.string len row index = do
  v ← get_value row index
  s ← get_string v
  ok (length s % 256 ∷ s)
serialize_type ColumnType.vector len row index = ok []

unfoldable pub serialize_from : ℕ → Row → ℕ → Schema → Outcome (List ℕ)
unfolding serialize_type bit_at
serialize_from nulls row index [] = ok []
serialize_from nulls row index (column ∷ schema) = do
  bytes ← if bit_at nulls index then ok [] else serialize_type column.type column.len row index
  rest ← serialize_from nulls row (suc index) schema
  ok (bytes ++ rest)

-- `Marshal::serializeRow`
unfoldable pub serialize_row : Schema → Row → Outcome (List ℕ)
unfolding get_nulls serialize_from word_bytes
serialize_row schema row = do
  guard (ltb (length row) 64) assertion
  let nulls = get_nulls row
  rest ← serialize_from nulls row 0 schema
  ok (word_bytes 8 nulls ++ rest)

-- `strnlen` and the construction of the string: the bytes before the first zero byte, `n` at most.
unfoldable pub c_string : ℕ → List ℕ → List ℕ
c_string zero bytes = []
c_string (suc n) [] = []
c_string (suc n) (b ∷ bytes) = if b == 0 then [] else b ∷ c_string n bytes

-- The `switch` of `deserializeRow`: what is appended to the row, and the bytes that follow.
unfoldable pub deserialize_type : ColumnType → ℕ → List ℕ → Outcome (Row × List ℕ)
unfolding read_word signed_of c_string
deserialize_type ColumnType.boolean len bytes = do
  (b, rest) ← read_word 1 bytes
  ok (boolean (if b == 0 then false else true) ∷ [], rest)
deserialize_type ColumnType.uint64 len bytes = do
  (w, rest) ← read_word 8 bytes
  ok (uint64 w ∷ [], rest)
deserialize_type ColumnType.int64 len bytes = do
  (w, rest) ← read_word 8 bytes
  ok (int64 (signed_of w) ∷ [], rest)
deserialize_type ColumnType.varchar len bytes = do
  guard (leb len (length bytes)) out_of_range
  ok (string (c_string len bytes) ∷ [], drop len bytes)
deserialize_type ColumnType.string len bytes = do
  (n, rest) ← read_word 1 bytes
  guard (leb n (length rest)) out_of_range
  ok (string (take n rest) ∷ [], drop n rest)
deserialize_type ColumnType.vector len bytes = ok ([], bytes)

unfoldable pub deserialize_from : ℕ → ℕ → Schema → List ℕ → Outcome Row
unfolding deserialize_type bit_at
deserialize_from nulls index [] bytes = ok []
deserialize_from nulls index (column ∷ schema) bytes = do
  (values, rest) ←
      if bit_at nulls index
      then ok (null ∷ [], bytes)
      else deserialize_type column.type column.len bytes
  row ← deserialize_from nulls (suc index) schema rest
  ok (values ++ row)

-- `Marshal::deserializeRow`
unfoldable pub deserialize_row : Schema → List ℕ → Outcome Row
unfolding deserialize_from read_word
deserialize_row schema bytes = do
  (nulls, rest) ← read_word 8 bytes
  deserialize_from nulls 0 schema rest
