-- ===== src/Marshal/Reads/Columns.antt =====
-- lib/sql/marshal.cpp: what `deserializeRow` reads of one column that `serializeRow` wrote.
use relvec_db.Common.{
  ℕ, zero, suc, ◌+◌, ◌-◌, ◌*◌, ◌/◌, ◌%◌, ◌^◌, ◌<◌, ◌≤◌, ◌≡◌, ◌≢◌, refl, ap, sym, ◌∙◌, inl, inr,
  true, false, List, [], ◌∷◌, ◌++◌, All, arith, length, leb, ltb, drop, replicate, ◌==◌,
  if◌then◌else◌, length-append, length-replicate, Bool-cases, Bool, drop-append,
}
use relvec_db.Common.Int.{ℤ}
use relvec_db.Common.Outcome.{ok, ◌>>=◌, >>=-eq-ok}
use relvec_db.Row.{ColumnType, Value, boolean, uint64, int64, string, Row}
use relvec_db.Marshal.{
  serialize_type, deserialize_type, c_string, get_value, get_bool, get_uint64, get_int64,
  get_string,
}
use relvec_db.Marshal.Words.{IsI64, word_bytes, read_word, pattern_of, signed_of}
use relvec_db.Marshal.Columns.{Holds}
use native.Mathlib.Nat.{pow-suc}

read_word_total :
    (k w : ℕ) (rest : List ℕ)
    → (w' : ℕ) × (read_word k (word_bytes k w ++ rest) ≡ ok (w', rest)) × (w' < 256 ^ k)
unfolding word_bytes read_word
read_word_total zero w rest = (0, refl, omega arith)
read_word_total (suc k) w rest =
    let (w', e, l) = read_word_total k (w / 256) rest in
    (w % 256 + 256 * w', rw e refl, omega (arith, l, pow-suc 256 k))

signed_of-IsI64 : (w : ℕ) → w < 2 ^ 64 → IsI64 (signed_of w)
unfolding signed_of
signed_of-IsI64 w h = elim (Bool-cases (ltb w (2 ^ 63))) [
  | inl small ↦ rw small (ground (arith, small))
  | inr large ↦ rw large (ground (arith, large, h))
]

length-c_string : (n : ℕ) (bytes : List ℕ) → length (c_string n bytes) ≤ n
unfolding c_string
length-c_string zero bytes = omega arith
length-c_string (suc n) [] = omega arith
length-c_string (suc n) (b ∷ bytes) = elim (Bool-cases (b == 0)) [
  | inl e ↦ rw e (omega arith)
  | inr e ↦ rw e (omega (arith, length-c_string n bytes))
]

c_string-positive : (n : ℕ) (bytes : List ℕ) → All (λ b. 0 < b) (c_string n bytes)
unfolding c_string
c_string-positive zero bytes = tt
c_string-positive (suc n) [] = tt
c_string-positive (suc n) (b ∷ bytes) = elim (Bool-cases (b == 0)) [
  | inl e ↦ rw e tt
  | inr e ↦ rw e (ground (arith, e), c_string-positive n bytes)
]

drop-length : (n : ℕ) (s rest : List ℕ) → length s ≡ n → drop n (s ++ rest) ≡ rest
drop-length n s rest e = rw (← e) (drop-append s rest)

read_bool :
    (len : ℕ) (b : Bool) (rest : List ℕ)
    → deserialize_type ColumnType.boolean len ((if b then 1 else 0) ∷ rest)
      ≡ ok (boolean b ∷ [], rest)
unfolding deserialize_type read_word
read_bool len true rest = refl
read_bool len false rest = refl

read_uint64 :
    (len n : ℕ) (rest : List ℕ)
    → (w : ℕ) × (deserialize_type ColumnType.uint64 len (word_bytes 8 n ++ rest)
        ≡ ok (uint64 w ∷ [], rest))
      × (w < 2 ^ 64)
unfolding deserialize_type
read_uint64 len n rest =
    let (w, r, l) = read_word_total 8 n rest in
    (w, ap (λ o. o >>= λ x. ok (uint64 x.0 ∷ [], x.1)) r, l)

read_int64 :
    (len n : ℕ) (rest : List ℕ)
    → (z : ℤ) × (deserialize_type ColumnType.int64 len (word_bytes 8 n ++ rest)
        ≡ ok (int64 z ∷ [], rest))
      × IsI64 z
unfolding deserialize_type
read_int64 len n rest =
    let (w, r, l) = read_word_total 8 n rest in
    (signed_of w, ap (λ o. o >>= λ x. ok (int64 (signed_of x.0) ∷ [], x.1)) r, signed_of-IsI64 w l)

read_varchar :
    (len : ℕ) (bytes rest : List ℕ)
    → length bytes ≡ len
    → deserialize_type ColumnType.varchar len (bytes ++ rest)
      ≡ ok (string (c_string len (bytes ++ rest)) ∷ [], rest)
unfolding deserialize_type
read_varchar len bytes rest size =
    let inside : leb len (length (bytes ++ rest)) ≡ true =
      ground (arith, size, length-append bytes rest) in
    rw (inside, drop-length len bytes rest size) refl

-- A column that is written is read as a value that the column holds.
pub read_column :
    (t : ColumnType) (len : ℕ) (row : Row) (i : ℕ) (bytes rest : List ℕ)
    → t ≢ ColumnType.vector
    → t ≢ ColumnType.string
    → serialize_type t len row i ≡ ok bytes
    → (v : Value) × (deserialize_type t len (bytes ++ rest) ≡ ok (v ∷ [], rest)) × Holds t len v
unfolding serialize_type
read_column ColumnType.vector len row i bytes rest nv ns e = absurd (nv refl)
read_column ColumnType.string len row i bytes rest nv ns e = absurd (ns refl)
read_column ColumnType.boolean len row i bytes rest nv ns e =
    let (v, ev, er) = >>=-eq-ok (get_value row i) _ e in
    let (b, eb, ew) = >>=-eq-ok (get_bool v) _ er in
    let same : (if b then 1 else 0) ∷ [] ≡ bytes = cc ew in
    (
      boolean b,
      ap (λ t. deserialize_type ColumnType.boolean len (t ++ rest)) (sym same)
          ∙ read_bool len b rest,
      tt,
    )
read_column ColumnType.uint64 len row i bytes rest nv ns e =
    let (v, ev, er) = >>=-eq-ok (get_value row i) _ e in
    let (n, en, ew) = >>=-eq-ok (get_uint64 v) _ er in
    let same : word_bytes 8 n ≡ bytes = cc ew in
    let (w, r, l) = read_uint64 len n rest in
    (uint64 w, ap (λ t. deserialize_type ColumnType.uint64 len (t ++ rest)) (sym same) ∙ r, l)
read_column ColumnType.int64 len row i bytes rest nv ns e =
    let (v, ev, er) = >>=-eq-ok (get_value row i) _ e in
    let (z, ez, ew) = >>=-eq-ok (get_int64 v) _ er in
    let same : word_bytes 8 (pattern_of z) ≡ bytes = cc ew in
    let (y, r, l) = read_int64 len (pattern_of z) rest in
    (int64 y, ap (λ t. deserialize_type ColumnType.int64 len (t ++ rest)) (sym same) ∙ r, l)
read_column ColumnType.varchar len row i bytes rest nv ns e =
    let (v, ev, er) = >>=-eq-ok (get_value row i) _ e in
    let (s, es, eg) = >>=-eq-ok (get_string v) _ er in
    let fits : length s ≤ len = ground (arith, eg) in
    let same : s ++ replicate (len - length s) 0 ≡ bytes = ground (arith, eg) in
    let size : length bytes ≡ len = omega (
      arith,
      fits,
      ap (λ (t : List ℕ). length t) same,
      length-append s (replicate (len - length s) 0),
      length-replicate {A = ℕ} (len - length s) 0,
    ) in
    (
      string (c_string len (bytes ++ rest)),
      read_varchar len bytes rest size,
      (length-c_string len (bytes ++ rest), c_string-positive len (bytes ++ rest)),
    )
