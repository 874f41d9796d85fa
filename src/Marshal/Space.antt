-- ===== src/Marshal/Space.antt =====
-- lib/sql/marshal.cpp: `getRowSpace` and `getFixedRowSpace` against the bytes that are written.
use relvec_db.Common.{
  ℕ, suc, ◌+◌, ◌/◌, ◌%◌, ◌^◌, ◌<◌, ◌≤◌, ◌≡◌, ◌≢◌, refl, ap, ◌∙◌, false, List, [], ◌∷◌, arith,
  length, drop, get_elem?, some, if◌then◌else◌, length-append, ◌==◌, leb,
}
use relvec_db.Common.Outcome.{ok, >>=-eq-ok, guard, assertion}
use relvec_db.Row.{
  ColumnType, ColumnSchema, Schema, Value, null, boolean, uint64, int64, string, Row, is_null,
}
use native.Mathlib.Nat.{add_assoc}
use relvec_db.Marshal.{
  type_space, string_space, serialize_row, get_row_space, get_nulls, fixed_space_from,
  string_space_from, get_fixed_row_space, new_marshal, calculate_fixed_row_space,
}
use relvec_db.Marshal.Nulls.{mask, mask-step, bit_at-mask, get_nulls-mask}
use relvec_db.Marshal.Columns.{Holds, type_bytes, length-type_bytes}
use relvec_db.Marshal.RoundTrip.{
  Fits, FitsRow, value_bytes, row_bytes, get_elem?-drop, drop-step, written, serialize_row-written,
  length-written,
}

-- What the two loops add for one column, and the bytes that it takes.
record Spaces (c : ColumnSchema) (v : Value) (row : Row) (i : ℕ) : Type 0 where
  fixed : ℕ
  own : ℕ
  fixed_eq : (if is_null v then ok 0 else type_space c.type c.len) ≡ ok fixed
  own_eq : (if is_null v then ok 0 else string_space c.type row i) ≡ ok own
  sum : length (value_bytes c v) ≡ fixed + own

Spaces-of :
    (c : ColumnSchema) (v : Value) (row : Row) (i : ℕ)
    → is_null v ≡ false
    → Holds c.type c.len v
    → get_elem? row i ≡ some v
    → Spaces c v row i
unfolding value_bytes
Spaces-of c v row i nn h e =
    let (a, b, ea, eb, s) = length-type_bytes c.type c.len v row i h e in
    record { fixed = a; own = b; fixed_eq = rw nn ea; own_eq = rw nn eb; sum = rw nn s }

column-Spaces :
    (c : ColumnSchema) (v : Value) (row : Row) (i : ℕ)
    → Fits c v
    → get_elem? row i ≡ some v
    → Spaces c v row i
unfolding value_bytes
column-Spaces c null row i h e = record {
  fixed = 0;
  own = 0;
  fixed_eq = refl;
  own_eq = refl;
  sum = omega arith;
}
column-Spaces c (boolean b) row i h e = Spaces-of c (boolean b) row i refl h e
column-Spaces c (uint64 n) row i h e = Spaces-of c (uint64 n) row i refl h e
column-Spaces c (int64 z) row i h e = Spaces-of c (int64 z) row i refl h e
column-Spaces c (string s) row i h e = Spaces-of c (string s) row i refl h e

-- The same of the columns from `i` on, from any start of the two sums.
record RowSpaces (schema : Schema) (row vs : Row) (n i : ℕ) : Type 0 where
  fixed : ℕ
  own : ℕ
  fixed_eq : (acc : ℕ) → fixed_space_from schema (mask vs) acc ≡ ok (acc + fixed)
  own_eq : (acc : ℕ) → string_space_from n row i schema acc ≡ ok (acc + own)
  sum : length (row_bytes schema vs) ≡ fixed + own

mask-parity : (v : Value) (vs : Row) → (mask (v ∷ vs) % 2 == 1) ≡ is_null v
unfolding mask
mask-parity v vs = ground arith

mask-half : (v : Value) (vs : Row) → mask (v ∷ vs) / 2 ≡ mask vs
unfolding mask
mask-half v vs = ground arith

row_spaces :
    (schema : Schema) (row vs : Row) (n i : ℕ)
    → FitsRow schema vs
    → drop i row ≡ vs
    → n / 2 ^ i ≡ mask vs
    → RowSpaces schema row vs n i
unfolding fixed_space_from string_space_from row_bytes
row_spaces [] row vs n i h e m = record {
  fixed = 0;
  own = 0;
  fixed_eq = λ acc. ground arith;
  own_eq = λ acc. ground arith;
  sum = omega arith;
}
row_spaces (c ∷ schema) row [] n i h e m = absurd h
row_spaces (c ∷ schema) row (v ∷ vs) n i (h, hs) e m =
    let s = column-Spaces c v row i h (get_elem?-drop row i v vs e) in
    let t = row_spaces schema row vs n (suc i) hs (drop-step row i v vs e) (mask-step n i v vs m) in
    record {
      fixed = s.fixed + t.fixed;
      own = s.own + t.own;
      fixed_eq = λ acc.
          rw (mask-parity v vs, mask-half v vs, s.fixed_eq)
            (t.fixed_eq (acc + s.fixed) ∙ ap ok (add_assoc acc s.fixed t.fixed));
      own_eq = λ acc.
          rw (bit_at-mask n i v vs m, s.own_eq)
            (t.own_eq (acc + s.own) ∙ ap ok (add_assoc acc s.own t.own));
      sum = omega (arith, length-append (value_bytes c v) (row_bytes schema vs), s.sum, t.sum);
    }

space_sum :
    (schema : Schema) (row : Row) (s : RowSpaces schema row row (get_nulls row) 0)
    → get_row_space schema row ≡ ok (8 + s.fixed + s.own)
unfolding get_row_space
space_sum schema row s = ground (arith, get_nulls-mask row, s.fixed_eq 8, s.own_eq (8 + s.fixed))

-- `getRowSpace` returns the number of bytes that `serializeRow` writes, for a row that fits its
-- schema and has fewer than 64 columns.
pub get_row_space-serialize_row :
    (schema : Schema) (row : Row)
    → FitsRow schema row
    → length row < 64
    → (bytes : List ℕ) × (serialize_row schema row ≡ ok bytes)
      × (get_row_space schema row ≡ ok (length bytes))
unfolding get_row_space
get_row_space-serialize_row schema row h l =
    let m : get_nulls row / 2 ^ 0 ≡ mask row = omega (arith, get_nulls-mask row) in
    let s = row_spaces schema row row (get_nulls row) 0 h refl m in
    let total : 8 + s.fixed + s.own ≡ length (written schema row) =
      omega (arith, length-written schema row, s.sum) in
    (written schema row, serialize_row-written schema row h l, space_sum schema row s ∙ ap ok total)

-- No column of the type that is stored with a length of its own.
abbrev pub IsFixed : Schema → Type 0
IsFixed [] = Unit
IsFixed (c ∷ schema) = (c.type ≢ ColumnType.string) × IsFixed schema

type_bytes-le :
    (t : ColumnType) (len a : ℕ) (v : Value)
    → t ≢ ColumnType.string
    → Holds t len v
    → type_space t len ≡ ok a
    → length (type_bytes t len v) ≤ a
unfolding string_space
type_bytes-le ColumnType.string len a v ns h e = absurd (ns refl)
type_bytes-le t len a v ns h e =
    let (a', b, ea, eb, s) = length-type_bytes t len v (v ∷ []) 0 h refl in ground arith

value_bytes-le :
    (c : ColumnSchema) (v : Value) (a : ℕ)
    → c.type ≢ ColumnType.string
    → Fits c v
    → type_space c.type c.len ≡ ok a
    → length (value_bytes c v) ≤ a
unfolding value_bytes
value_bytes-le c null a ns h e = omega arith
value_bytes-le c (boolean b) a ns h e = type_bytes-le c.type c.len a (boolean b) ns h e
value_bytes-le c (uint64 n) a ns h e = type_bytes-le c.type c.len a (uint64 n) ns h e
value_bytes-le c (int64 z) a ns h e = type_bytes-le c.type c.len a (int64 z) ns h e
value_bytes-le c (string s) a ns h e = type_bytes-le c.type c.len a (string s) ns h e

fixed_bound :
    (schema : Schema) (vs : Row) (acc n : ℕ)
    → IsFixed schema
    → FitsRow schema vs
    → fixed_space_from schema 0 acc ≡ ok n
    → acc + length (row_bytes schema vs) ≤ n
unfolding fixed_space_from row_bytes
fixed_bound [] vs acc n f h e = ground arith
fixed_bound (c ∷ schema) [] acc n f h e = absurd h
fixed_bound (c ∷ schema) (v ∷ vs) acc n (nc, f) (h, hs) e =
    let (a, ea, er) = >>=-eq-ok (type_space c.type c.len) _ e in
    omega (
      arith,
      length-append (value_bytes c v) (row_bytes schema vs),
      value_bytes-le c v a nc h ea,
      fixed_bound schema vs (acc + a) n f hs er,
    )

pub fixed_space-new_marshal :
    (schema : Schema) (n : ℕ) → new_marshal schema ≡ ok n → fixed_space_from schema 0 8 ≡ ok n
unfolding new_marshal calculate_fixed_row_space
fixed_space-new_marshal schema n e =
    let (m, em, er) = >>=-eq-ok (fixed_space_from schema 0 8) _ e in
    let (_, _, es) = >>=-eq-ok (guard (leb (length schema) 64) assertion) _ er in em ∙ es

-- For a schema without string columns, a row that fits it and has fewer than 64 columns is written
-- in at most `getFixedRowSpace` bytes.
pub serialize_row-le-fixed_row_space :
    (schema : Schema) (row : Row) {n : ℕ}
    → IsFixed schema
    → get_fixed_row_space schema ≡ ok n
    → FitsRow schema row
    → length row < 64
    → (bytes : List ℕ) × (serialize_row schema row ≡ ok bytes) × (length bytes ≤ n)
unfolding get_fixed_row_space
serialize_row-le-fixed_row_space schema row {n} f e h l =
    let space = fixed_space-new_marshal schema n e in
    (
      written schema row,
      serialize_row-written schema row h l,
      omega (arith, length-written schema row, fixed_bound schema row 8 n f h space),
    )
