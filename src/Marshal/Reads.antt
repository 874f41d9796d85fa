-- ===== src/Marshal/Reads.antt =====
-- lib/sql/marshal.cpp: what `deserializeRow` reads of what `serializeRow` wrote, also of a row that does
-- not fit its schema.
pub mod Columns
use relvec_db.Common.{
  ℕ, zero, suc, ◌+◌, ◌-◌, ◌*◌, ◌/◌, ◌%◌, ◌^◌, ◌<◌, ◌≤◌, ◌≡◌, ◌≢◌, refl, ap, sym, ◌∙◌, inl, inr,
  true, false, List, [], ◌∷◌, ◌++◌, All, arith, length, leb, ltb, drop, replicate, ◌==◌,
  if◌then◌else◌, length-append, length-replicate, Bool-cases, Bool, drop-append,
}
use relvec_db.Common.Int.{ℤ}
use relvec_db.Common.Outcome.{ok, guard, assertion, ◌>>=◌, >>=-eq-ok}
use relvec_db.Row.{
  ColumnType, ColumnSchema, Schema, Value, null, boolean, uint64, int64, string, Row,
}
use relvec_db.Marshal.{
  type_space, fixed_space_from, serialize_type, serialize_from, deserialize_type, deserialize_from,
  c_string, get_value, get_bool, get_uint64, get_int64, get_string, get_nulls, serialize_row,
  deserialize_row, get_fixed_row_space,
}
use relvec_db.Marshal.Words.{
  IsI64, word_bytes, read_word, pattern_of, signed_of, bit_at, read_word-word_bytes,
}
use relvec_db.Marshal.Nulls.{get_nulls-lt}
use relvec_db.Marshal.Columns.{Holds}
use relvec_db.Marshal.RoundTrip.{Fits, FitsRow}
use relvec_db.Marshal.Space.{IsFixed, fixed_space-new_marshal}
use mathlib.Core.List.{append_assoc}
use native.Mathlib.Nat.{pow-suc}
use relvec_db.Marshal.Reads.Columns.{read_column}

Fits-Holds : (c : ColumnSchema) (v : Value) → Holds c.type c.len v → Fits c v
Fits-Holds c null h = tt
Fits-Holds c (boolean b) h = h
Fits-Holds c (uint64 n) h = h
Fits-Holds c (int64 z) h = h
Fits-Holds c (string s) h = h

not_vector : (t : ColumnType) (len a : ℕ) → type_space t len ≡ ok a → t ≢ ColumnType.vector
unfolding type_space
not_vector ColumnType.vector len a e = cc
not_vector ColumnType.boolean len a e = λ q. cc
not_vector ColumnType.uint64 len a e = λ q. cc
not_vector ColumnType.int64 len a e = λ q. cc
not_vector ColumnType.varchar len a e = λ q. cc
not_vector ColumnType.string len a e = λ q. cc

empty_row : (n i : ℕ) (bytes : List ℕ) → deserialize_from n i [] bytes ≡ ok []
unfolding deserialize_from
empty_row n i bytes = refl

null_column :
    (c : ColumnSchema) (schema : Schema) (n i : ℕ) (bytes : List ℕ) (out : Row)
    → bit_at n i ≡ true
    → deserialize_from n (suc i) schema bytes ≡ ok out
    → deserialize_from n i (c ∷ schema) bytes ≡ ok (null ∷ out)
unfolding deserialize_from
null_column c schema n i bytes out e r = rw (e, r) refl

value_column :
    (c : ColumnSchema) (schema : Schema) (n i : ℕ) (head tail rest : List ℕ) (v : Value) (out : Row)
    → bit_at n i ≡ false
    → deserialize_type c.type c.len (head ++ (tail ++ rest)) ≡ ok (v ∷ [], tail ++ rest)
    → deserialize_from n (suc i) schema (tail ++ rest) ≡ ok out
    → deserialize_from n i (c ∷ schema) ((head ++ tail) ++ rest) ≡ ok (v ∷ out)
unfolding deserialize_from
value_column c schema n i head tail rest v out e rv r = rw (e, append_assoc, rv) (rw r refl)

-- A row that is written under a schema without strings and vectors is read as a row that fits it.
pub read_columns-FitsRow :
    (schema : Schema) (row : Row) (n i acc space : ℕ) (bytes rest : List ℕ)
    → IsFixed schema
    → fixed_space_from schema 0 acc ≡ ok space
    → serialize_from n row i schema ≡ ok bytes
    → (out : Row) × (deserialize_from n i schema (bytes ++ rest) ≡ ok out)
      × FitsRow schema out
      × (length out ≡ length schema)
unfolding fixed_space_from serialize_from
read_columns-FitsRow [] row n i acc space bytes rest f m e =
    ([], empty_row n i (bytes ++ rest), tt, refl)
read_columns-FitsRow (c ∷ schema) row n i acc space bytes rest (nc, f) m e =
    let (a, ea, m') = >>=-eq-ok (type_space c.type c.len) _ m in
    elim (Bool-cases (bit_at n i)) [
      | inl is_null ↦
          let (tail, et, ew) =
            >>=-eq-ok (serialize_from n row (suc i) schema) _ (rw is_null at e) in
          let same : tail ≡ bytes = cc ew in
          let (out, r, h, l) =
            read_columns-FitsRow schema row n (suc i) (acc + a) space tail rest f m' et in
          (
            null ∷ out,
            ap (λ t. deserialize_from n i (c ∷ schema) (t ++ rest)) (sym same)
                ∙ null_column c schema n i (tail ++ rest) out is_null r,
            (tt, h),
            omega (arith, l),
          )
      | inr not_null ↦
          let (head, eh, e') = >>=-eq-ok (serialize_type c.type c.len row i) _ (rw not_null at e) in
          let (tail, et, ew) = >>=-eq-ok (serialize_from n row (suc i) schema) _ e' in
          let same : head ++ tail ≡ bytes = cc ew in
          let (out, r, h, l) =
            read_columns-FitsRow schema row n (suc i) (acc + a) space tail rest f m' et in
          let (v, rv, hv) =
            read_column c.type c.len row i head (tail ++ rest) (not_vector c.type c.len a ea) nc
              eh in
          (
            v ∷ out,
            ap (λ t. deserialize_from n i (c ∷ schema) (t ++ rest)) (sym same)
                ∙ value_column c schema n i head tail rest v out not_null rv r,
            (Fits-Holds c v hv, h),
            omega (arith, l),
          )
    ]

append_nil : (bytes : List ℕ) → bytes ++ [] ≡ bytes
append_nil [] = refl
append_nil (b ∷ bytes) = ap (λ t. b ∷ t) (append_nil bytes)

deserialize_row-nulls :
    (schema : Schema) (row out : Row) (tail : List ℕ)
    → length row < 64
    → deserialize_from (get_nulls row) 0 schema tail ≡ ok out
    → deserialize_row schema (word_bytes 8 (get_nulls row) ++ tail) ≡ ok out
unfolding deserialize_row
deserialize_row-nulls schema row out tail l e =
    rw (read_word-word_bytes 8 (get_nulls row) tail (get_nulls-lt row l)) e

-- A row that is read after another was written fits the schema, where it has no strings and there is a
-- marshal of it.
pub deserialize_row-FitsRow :
    (schema : Schema) (row out : Row) (bytes : List ℕ) {n : ℕ}
    → IsFixed schema
    → get_fixed_row_space schema ≡ ok n
    → serialize_row schema row ≡ ok bytes
    → deserialize_row schema bytes ≡ ok out
    → FitsRow schema out × (length out ≡ length schema)
unfolding serialize_row get_fixed_row_space
deserialize_row-FitsRow schema row out bytes {n} f m e r =
    let (_, _, e₁) = >>=-eq-ok (guard (ltb (length row) 64) assertion) _ e in
    let short : length row < 64 = ground (arith, e) in
    let (tail, et, ew) = >>=-eq-ok (serialize_from (get_nulls row) row 0 schema) _ e₁ in
    let (out', r', h, l) =
      read_columns-FitsRow schema row (get_nulls row) 0 8 n tail [] f
        (fixed_space-new_marshal schema n m) et in
    let again =
      deserialize_row-nulls schema row out' tail short
        (ap (deserialize_from (get_nulls row) 0 schema) (sym (append_nil tail)) ∙ r') in
    let written : word_bytes 8 (get_nulls row) ++ tail ≡ bytes = cc ew in
    let same : out' ≡ out = cc (again, ap (deserialize_row schema) written, r) in
    (rw (sym same) h, rw (sym same) l)
