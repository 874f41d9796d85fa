-- ===== src/Marshal/Tests.antt =====
-- Concrete rows as bytes, and the laws of lib/sql/marshal.cpp at them.
use relvec_db.Common.{ℕ, ◌≡◌, refl, true, List, [], ◌∷◌, ◌++◌, length, arith, replicate, take, ◌%◌}
use relvec_db.Common.Int.{negsuc}
use relvec_db.Common.Outcome.{ok, fail, bad_variant}
use relvec_db.Row.{ColumnType, ColumnSchema, Schema, Row, null, boolean, uint64, int64, string}
use relvec_db.Marshal.{serialize_row, deserialize_row, get_row_space, get_fixed_row_space}
use relvec_db.Marshal.RoundTrip.{deserialize_row-serialize_row}
use relvec_db.Marshal.Space.{get_row_space-serialize_row}
use relvec_db.Marshal.LongString.{string_column, deserialize_row-string_modulo}

abbrev column : ColumnType → ℕ → ColumnSchema
column t len = record { name = b'c' ∷ []; type = t; len = len }

abbrev schema : Schema
schema =
    column ColumnType.int64 0
    ∷ column ColumnType.varchar 4
    ∷ column ColumnType.boolean 0
    ∷ column ColumnType.uint64 0
    ∷ []

abbrev row : Row
row = int64 (negsuc 0) ∷ string (b'a' ∷ b'b' ∷ []) ∷ null ∷ uint64 258 ∷ []

row_bytes_run :
    serialize_row schema row
    ≡ ok (
        4 ∷ 0 ∷ 0 ∷ 0 ∷ 0 ∷ 0 ∷ 0 ∷ 0 ∷ 255 ∷ 255 ∷ 255 ∷ 255 ∷ 255 ∷ 255 ∷ 255 ∷ 255 ∷ b'a' ∷ b'b'
        ∷ 0 ∷ 0 ∷ 2 ∷ 1 ∷ 0 ∷ 0 ∷ 0 ∷ 0 ∷ 0 ∷ 0 ∷ [])
unfolding serialize_row
row_bytes_run = refl

wrong_type : serialize_row schema (boolean true ∷ []) ≡ fail bad_variant
unfolding serialize_row
wrong_type = refl

deserialize_row-serialize_row_example :
    (bytes : List ℕ) × (serialize_row schema row ≡ ok bytes)
    × (deserialize_row schema (bytes ++ (7 ∷ [])) ≡ ok row)
deserialize_row-serialize_row_example =
    deserialize_row-serialize_row schema row (7 ∷ []) (omega arith) (omega arith)

get_row_space-serialize_row_example :
    (bytes : List ℕ) × (serialize_row schema row ≡ ok bytes)
    × (get_row_space schema row ≡ ok (length bytes))
get_row_space-serialize_row_example =
    get_row_space-serialize_row schema row (omega arith) (omega arith)

fixed_space_run : get_fixed_row_space schema ≡ ok 29
unfolding get_fixed_row_space
fixed_space_run = refl

-- 256 bytes: nothing of them is read back.
abbrev long : List ℕ
long = replicate 256 b'a'

deserialize_row-string_modulo_example :
    (bytes : List ℕ) × (serialize_row (string_column [] ∷ []) (string long ∷ []) ≡ ok bytes)
    × (deserialize_row (string_column [] ∷ []) (bytes ++ [])
        ≡ ok (string (take (length long % 256) long) ∷ []))
deserialize_row-string_modulo_example = deserialize_row-string_modulo [] long []
