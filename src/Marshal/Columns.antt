-- ===== src/Marshal/Columns.antt =====
-- lib/sql/marshal.cpp: one column written and read back.
use relvec_db.Common.{
  ℕ, zero, suc, ◌+◌, ◌-◌, ◌^◌, ◌%◌, ◌<◌, ◌≤◌, ◌≡◌, refl, true, false, List, [], ◌∷◌, ◌++◌, arith,
  length, drop, get_elem?, some, if◌then◌else◌, All, replicate, length-append, length-replicate,
  take-append, drop-append,
}
use relvec_db.Common.Outcome.{ok}
use relvec_db.Row.{ColumnType, Value, boolean, uint64, int64, string, Row}
use relvec_db.Marshal.{serialize_type, deserialize_type, c_string, type_space, string_space}
use relvec_db.Marshal.Words.{
  IsI64, word_bytes, pattern_of, length-word_bytes, read_word-word_bytes, signed_of-pattern_of,
  pattern_of-lt,
}

-- A value that is not null and that a column of the type can hold. A varchar has no zero byte, and
-- a string has at most 255 bytes.
abbrev pub Holds : ColumnType → ℕ → Value → Type 0
Holds ColumnType.boolean len (boolean b) = Unit
Holds ColumnType.uint64 len (uint64 n) = n < 2 ^ 64
Holds ColumnType.int64 len (int64 z) = IsI64 z
Holds ColumnType.varchar len (string s) = (length s ≤ len) × All (λ b. 0 < b) s
Holds ColumnType.string len (string s) = length s < 256
Holds _ len v = ⊥

-- The bytes of such a value.
unfoldable pub type_bytes : ColumnType → ℕ → Value → List ℕ
type_bytes ColumnType.boolean len (boolean b) = (if b then 1 else 0) ∷ []
type_bytes ColumnType.uint64 len (uint64 n) = word_bytes 8 n
type_bytes ColumnType.int64 len (int64 z) = word_bytes 8 (pattern_of z)
type_bytes ColumnType.varchar len (string s) = s ++ replicate (len - length s) 0
type_bytes ColumnType.string len (string s) = length s % 256 ∷ s
type_bytes _ len v = []

pub serialize_type-Holds :
    (t : ColumnType) (len : ℕ) (v : Value) (row : Row) (index : ℕ)
    → Holds t len v
    → get_elem? row index ≡ some v
    → serialize_type t len row index ≡ ok (type_bytes t len v)
unfolding serialize_type type_bytes
serialize_type-Holds ColumnType.boolean len (boolean b) row index h e = ground arith
serialize_type-Holds ColumnType.uint64 len (uint64 n) row index h e = ground arith
serialize_type-Holds ColumnType.int64 len (int64 z) row index h e = ground arith
serialize_type-Holds ColumnType.varchar len (string s) row index h e = ground arith
serialize_type-Holds ColumnType.string len (string s) row index h e = ground arith
serialize_type-Holds _ len v row index h e = absurd h

c_string-padded :
    (len k : ℕ) (s rest : List ℕ)
    → length s + k ≡ len
    → All (λ b. 0 < b) s
    → c_string len ((s ++ replicate k 0) ++ rest) ≡ s
unfolding c_string
c_string-padded zero k [] rest e h = refl
c_string-padded (suc len) zero [] rest e h = absurd (omega arith)
c_string-padded (suc len) (suc k) [] rest e h = refl
c_string-padded zero k (b ∷ s) rest e h = absurd (omega arith)
c_string-padded (suc len) k (b ∷ s) rest e (hb, hs) =
    ground (arith, c_string-padded len k s rest (omega arith) hs)

length-padded :
    (len : ℕ) (s : List ℕ) → length s ≤ len → length (s ++ replicate (len - length s) 0) ≡ len
length-padded len s h = omega (
  arith,
  length-append s (replicate (len - length s) 0),
  length-replicate {A = ℕ} (len - length s) 0,
)

drop-of_length {ℓ} : {A : Type ℓ} (n : ℕ) (xs ys : List A) → length xs ≡ n → drop n (xs ++ ys) ≡ ys
drop-of_length n xs ys e = rw (← e) (drop-append xs ys)

pub deserialize_type-Holds :
    (t : ColumnType) (len : ℕ) (v : Value) (rest : List ℕ)
    → Holds t len v
    → deserialize_type t len (type_bytes t len v ++ rest) ≡ ok (v ∷ [], rest)
unfolding deserialize_type type_bytes
deserialize_type-Holds ColumnType.boolean len (boolean true) rest h = refl
deserialize_type-Holds ColumnType.boolean len (boolean false) rest h = refl
deserialize_type-Holds ColumnType.uint64 len (uint64 n) rest h =
    rw (read_word-word_bytes 8 n rest h)
deserialize_type-Holds ColumnType.int64 len (int64 z) rest h =
    rw (read_word-word_bytes 8 (pattern_of z) rest (pattern_of-lt z h), signed_of-pattern_of z h)
deserialize_type-Holds ColumnType.varchar len (string s) rest (h, hs) = ground (
  arith,
  length-padded len s h,
  length-append (s ++ replicate (len - length s) 0) rest,
  drop-of_length len (s ++ replicate (len - length s) 0) rest,
  c_string-padded len (len - length s) s rest (omega arith) hs,
)
deserialize_type-Holds ColumnType.string len (string s) rest h =
    let e : length s % 256 + 0 ≡ length s = omega arith in
    rw e (ground (arith, length-append s rest, take-append s rest, drop-append s rest))
deserialize_type-Holds _ len v rest h = absurd h

-- A value that the column can hold is written as long as the two space functions say.
pub length-type_bytes :
    (t : ColumnType) (len : ℕ) (v : Value) (row : Row) (index : ℕ)
    → Holds t len v
    → get_elem? row index ≡ some v
    → (a b : ℕ) × (type_space t len ≡ ok a)
      × (string_space t row index ≡ ok b)
      × (length (type_bytes t len v) ≡ a + b)
unfolding type_space string_space type_bytes
length-type_bytes ColumnType.boolean len (boolean b) row index h e = (1, 0, refl, refl, omega arith)
length-type_bytes ColumnType.uint64 len (uint64 n) row index h e =
    (8, 0, refl, refl, omega (arith, length-word_bytes 8 n))
length-type_bytes ColumnType.int64 len (int64 z) row index h e =
    (8, 0, refl, refl, omega (arith, length-word_bytes 8 (pattern_of z)))
length-type_bytes ColumnType.varchar len (string s) row index (h, hs) e =
    (len, 0, refl, refl, omega (arith, length-padded len s h))
length-type_bytes ColumnType.string len (string s) row index h e =
    (1, length s, refl, ground arith, omega arith)
length-type_bytes _ len v row index h e = absurd h
