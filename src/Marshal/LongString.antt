-- ===== src/Marshal/LongString.antt =====
-- lib/sql/marshal.cpp: the length of a string is stored in one byte.
use mathlib.Core.List.{append-nil}
use relvec_db.Common.{
  zero, suc, ℕ, ◌+◌, ◌%◌, ◌≤◌, ◌≡◌, refl, List, [], ◌∷◌, ◌++◌, arith, length, take, length-append,
  ap,
}
use relvec_db.Common.Outcome.{ok}
use relvec_db.Row.{ColumnType, ColumnSchema, string}
use relvec_db.Marshal.{serialize_row, deserialize_row}

-- The schema of one string column.
abbrev pub string_column : List ℕ → ColumnSchema
string_column name = record { name = name; type = ColumnType.string; len = 0 }

take-append_le : (n : ℕ) (s rest : List ℕ) → n ≤ length s → take n (s ++ rest) ≡ take n s
take-append_le zero s rest h = refl
take-append_le (suc n) [] rest h = absurd (omega arith)
take-append_le (suc n) (x ∷ s) rest h = ap (λ t. x ∷ t) (take-append_le n s rest (omega arith))

-- A row of one string is written whole, but what is read back is its first `size % 256` bytes.
pub deserialize_row-string_modulo :
    (name s rest : List ℕ)
    → (bytes : List ℕ) × (serialize_row (string_column name ∷ []) (string s ∷ []) ≡ ok bytes)
      × (deserialize_row (string_column name ∷ []) (bytes ++ rest)
          ≡ ok (string (take (length s % 256) s) ∷ []))
unfolding serialize_row deserialize_row
deserialize_row-string_modulo name s rest =
    let n : ℕ = length s % 256 in
    (
      0 ∷ 0 ∷ 0 ∷ 0 ∷ 0 ∷ 0 ∷ 0 ∷ 0 ∷ n ∷ s,
      rw append-nil,
      let e : n + 0 ≡ n = omega arith in
          rw e (ground (arith, length-append s rest, take-append_le n s rest (omega arith))),
    )
