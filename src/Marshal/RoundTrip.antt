-- ===== src/Marshal/RoundTrip.antt =====
-- lib/sql/marshal.cpp: what `serializeRow` writes, `deserializeRow` reads back.
use relvec_db.Common.{
  ℕ, zero, suc, ◌+◌, ◌/◌, ◌^◌, ◌<◌, ◌≡◌, refl, List, [], ◌∷◌, ◌++◌, arith, length, drop, get_elem?,
  some, if◌then◌else◌, length-append, lt→ltb,
}
use relvec_db.Common.Outcome.{ok}
use relvec_db.Row.{ColumnSchema, Schema, Value, null, boolean, uint64, int64, string, Row, is_null}
use relvec_db.Marshal.{
  serialize_type, deserialize_type, serialize_row, serialize_from, deserialize_row,
  deserialize_from, get_nulls,
}
use relvec_db.Marshal.Words.{word_bytes, length-word_bytes, read_word-word_bytes}
use relvec_db.Marshal.Nulls.{mask, mask-step, bit_at-mask, get_nulls-mask, get_nulls-lt}
use relvec_db.Marshal.Columns.{Holds, type_bytes, serialize_type-Holds, deserialize_type-Holds}
use mathlib.Core.List.{append_assoc}

-- A value that a column can hold: NULL, or a value of its type.
abbrev pub Fits : ColumnSchema → Value → Type 0
Fits column null = Unit
Fits column (boolean b) = Holds column.type column.len (boolean b)
Fits column (uint64 n) = Holds column.type column.len (uint64 n)
Fits column (int64 z) = Holds column.type column.len (int64 z)
Fits column (string s) = Holds column.type column.len (string s)

abbrev pub FitsRow : Schema → Row → Type 0
FitsRow [] [] = Unit
FitsRow (c ∷ schema) (v ∷ row) = Fits c v × FitsRow schema row
FitsRow _ _ = ⊥

-- The bytes of the columns of a row.
unfoldable pub value_bytes : ColumnSchema → Value → List ℕ
value_bytes c v = if is_null v then [] else type_bytes c.type c.len v

unfoldable pub row_bytes : Schema → Row → List ℕ
unfolding value_bytes
row_bytes [] row = []
row_bytes (c ∷ schema) [] = []
row_bytes (c ∷ schema) (v ∷ row) = value_bytes c v ++ row_bytes schema row

pub get_elem?-drop :
    (row : Row) (i : ℕ) (v : Value) (vs : Row) → drop i row ≡ v ∷ vs → get_elem? row i ≡ some v
get_elem?-drop [] zero v vs e = cc
get_elem?-drop [] (suc i) v vs e = cc
get_elem?-drop (x ∷ row) zero v vs e = cc
get_elem?-drop (x ∷ row) (suc i) v vs e = get_elem?-drop row i v vs e

pub drop-step :
    (row : Row) (i : ℕ) (v : Value) (vs : Row) → drop i row ≡ v ∷ vs → drop (suc i) row ≡ vs
drop-step [] zero v vs e = cc
drop-step [] (suc i) v vs e = cc
drop-step (x ∷ row) zero v vs e = ground arith
drop-step (x ∷ row) (suc i) v vs e = drop-step row i v vs e

-- The column's step of `serializeRow`, by the bit of its index.
serialize_step :
    (c : ColumnSchema) (v : Value) (row : Row) (i : ℕ)
    → Fits c v
    → get_elem? row i ≡ some v
    → (if is_null v then ok [] else serialize_type c.type c.len row i) ≡ ok (value_bytes c v)
unfolding value_bytes
serialize_step c null row i h e = refl
serialize_step c (boolean b) row i h e = serialize_type-Holds c.type c.len (boolean b) row i h e
serialize_step c (uint64 n) row i h e = serialize_type-Holds c.type c.len (uint64 n) row i h e
serialize_step c (int64 z) row i h e = serialize_type-Holds c.type c.len (int64 z) row i h e
serialize_step c (string s) row i h e = serialize_type-Holds c.type c.len (string s) row i h e

deserialize_step :
    (c : ColumnSchema) (v : Value) (rest : List ℕ)
    → Fits c v
    → (if is_null v
        then ok (null ∷ [], value_bytes c v ++ rest)
        else deserialize_type c.type c.len (value_bytes c v ++ rest))
      ≡ ok (v ∷ [], rest)
unfolding value_bytes
deserialize_step c null rest h = refl
deserialize_step c (boolean b) rest h = deserialize_type-Holds c.type c.len (boolean b) rest h
deserialize_step c (uint64 n) rest h = deserialize_type-Holds c.type c.len (uint64 n) rest h
deserialize_step c (int64 z) rest h = deserialize_type-Holds c.type c.len (int64 z) rest h
deserialize_step c (string s) rest h = deserialize_type-Holds c.type c.len (string s) rest h

serialize_from-bytes :
    (schema : Schema) (row vs : Row) (n i : ℕ)
    → FitsRow schema vs
    → drop i row ≡ vs
    → n / 2 ^ i ≡ mask vs
    → serialize_from n row i schema ≡ ok (row_bytes schema vs)
unfolding serialize_from row_bytes
serialize_from-bytes [] row vs n i h e m = refl
serialize_from-bytes (c ∷ schema) row [] n i h e m = absurd h
serialize_from-bytes (c ∷ schema) row (v ∷ vs) n i (h, hs) e m =
    rw (bit_at-mask n i v vs m, serialize_step c v row i h (get_elem?-drop row i v vs e))
      (rw (
        serialize_from-bytes schema row vs n (suc i) hs (drop-step row i v vs e)
          (mask-step n i v vs m)))

deserialize_from-bytes :
    (schema : Schema) (vs : Row) (n i : ℕ) (rest : List ℕ)
    → FitsRow schema vs
    → n / 2 ^ i ≡ mask vs
    → deserialize_from n i schema (row_bytes schema vs ++ rest) ≡ ok vs
unfolding deserialize_from row_bytes
deserialize_from-bytes [] [] n i rest h m = refl
deserialize_from-bytes (c ∷ schema) [] n i rest h m = absurd h
deserialize_from-bytes [] (v ∷ vs) n i rest h m = absurd h
deserialize_from-bytes (c ∷ schema) (v ∷ vs) n i rest (h, hs) m =
    rw (append_assoc, bit_at-mask n i v vs m, deserialize_step c v (row_bytes schema vs ++ rest) h)
      (rw (deserialize_from-bytes schema vs n (suc i) rest hs (mask-step n i v vs m)))

-- What `serializeRow` writes for a row that fits.
pub written : Schema → Row → List ℕ
written schema row = word_bytes 8 (get_nulls row) ++ row_bytes schema row

pub serialize_row-written :
    (schema : Schema) (row : Row)
    → FitsRow schema row
    → length row < 64
    → serialize_row schema row ≡ ok (written schema row)
unfolding serialize_row written
serialize_row-written schema row h l =
    let m : get_nulls row / 2 ^ 0 ≡ mask row = omega (arith, get_nulls-mask row) in
    rw (lt→ltb _ _ l, serialize_from-bytes schema row row (get_nulls row) 0 h refl m)

pub length-written :
    (schema : Schema) (row : Row) → length (written schema row) ≡ 8 + length (row_bytes schema row)
unfolding written
length-written schema row = omega (
  arith,
  length-append (word_bytes 8 (get_nulls row)) (row_bytes schema row),
  length-word_bytes 8 (get_nulls row),
)

read-written :
    (schema : Schema) (row : Row) (rest : List ℕ)
    → FitsRow schema row
    → length row < 64
    → deserialize_row schema (written schema row ++ rest) ≡ ok row
unfolding deserialize_row written
read-written schema row rest h l =
    rw
      (
        append_assoc,
        read_word-word_bytes 8 (get_nulls row) (row_bytes schema row ++ rest) (get_nulls-lt row l),
      )
      (deserialize_from-bytes schema row (get_nulls row) 0 rest h
        (omega (arith, get_nulls-mask row)))

-- A row that fits its schema and has fewer than 64 columns is written, and reading the bytes gives
-- the row back, whatever stands behind them.
pub deserialize_row-serialize_row :
    (schema : Schema) (row : Row) (rest : List ℕ)
    → FitsRow schema row
    → length row < 64
    → (bytes : List ℕ) × (serialize_row schema row ≡ ok bytes)
      × (deserialize_row schema (bytes ++ rest) ≡ ok row)
deserialize_row-serialize_row schema row rest h l =
    (written schema row, serialize_row-written schema row h l, read-written schema row rest h l)
