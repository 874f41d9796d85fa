-- ===== src/Marshal/Words.antt =====
-- lib/sql/marshal.cpp, `serialize_value` and `deserialize_value`: words in memory order, which is
-- little endian on the machines that the program is built for, and the bits of the null mask.
use relvec_db.Common.{
  ℕ, zero, suc, ◌+◌, ◌-◌, ◌*◌, ◌/◌, ◌%◌, ◌^◌, ◌<◌, ◌≡◌, refl, Bool, List, [], ◌∷◌, ◌++◌, arith, ltb,
  ◌==◌, length, if◌then◌else◌,
}
use relvec_db.Common.Int.{ℤ, pos, negsuc}
use relvec_db.Common.Outcome.{Outcome, ok, fail, out_of_range, ◌>>=◌}
use native.Mathlib.Nat.{pow-suc}

-- The `k` bytes of a word, lowest first.
unfoldable pub word_bytes : ℕ → ℕ → List ℕ
word_bytes zero w = []
word_bytes (suc k) w = w % 256 ∷ word_bytes k (w / 256)

-- A read of `k` bytes as a word, with the bytes that follow. A read past the end is a fault.
unfoldable pub read_word : ℕ → List ℕ → Outcome (ℕ × List ℕ)
read_word zero bytes = ok (0, bytes)
read_word (suc k) [] = fail out_of_range
read_word (suc k) (b ∷ bytes) = do (w, rest) ← read_word k bytes; ok (b + 256 * w, rest)

-- The bit pattern of an `int64_t`, and the number that a pattern stands for.
unfoldable pub pattern_of : ℤ → ℕ
pattern_of (pos n) = n
pattern_of (negsuc n) = 2 ^ 64 - 1 - n

unfoldable pub signed_of : ℕ → ℤ
signed_of w = if ltb w (2 ^ 63) then pos w else negsuc (2 ^ 64 - 1 - w)

-- The values of an `int64_t`.
abbrev pub IsI64 : ℤ → Type 0
IsI64 (pos n) = n < 2 ^ 63
IsI64 (negsuc n) = n < 2 ^ 63

-- `nulls & (1UL << index)`
unfoldable pub bit_at : ℕ → ℕ → Bool
bit_at nulls index = nulls / 2 ^ index % 2 == 1

pub length-word_bytes : (k w : ℕ) → length (word_bytes k w) ≡ k
unfolding word_bytes
length-word_bytes zero w = refl
length-word_bytes (suc k) w = omega (arith, length-word_bytes k (w / 256))

pub read_word-word_bytes :
    (k w : ℕ) (rest : List ℕ) → w < 256 ^ k → read_word k (word_bytes k w ++ rest) ≡ ok (w, rest)
unfolding word_bytes read_word
read_word-word_bytes zero w rest h = ground arith
read_word-word_bytes (suc k) w rest h =
    ground
      (arith, pow-suc 256 k, read_word-word_bytes k (w / 256) rest (omega (arith, pow-suc 256 k)))

pub signed_of-pattern_of : (z : ℤ) → IsI64 z → signed_of (pattern_of z) ≡ z
unfolding signed_of pattern_of
signed_of-pattern_of (pos n) h = ground arith
signed_of-pattern_of (negsuc n) h = ground arith

pub pattern_of-lt : (z : ℤ) → IsI64 z → pattern_of z < 2 ^ 64
unfolding pattern_of
pattern_of-lt (pos n) h = omega arith
pattern_of-lt (negsuc n) h = omega arith
