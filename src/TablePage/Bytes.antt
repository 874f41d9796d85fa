-- ===== src/TablePage/Bytes.antt =====
-- Reads of a frame after a write: of the bytes written, and of bytes apart from them.
use relvec_db.Common.{
  ℕ, suc, ◌+◌, ◌-◌, ◌<◌, ◌≤◌, ◌≡◌, ◌⊎◌, refl, List, [], ◌∷◌, ◌++◌, arith, length, get_or,
}
use mathlib.Core.Path.{ap₂}
use native.Mathlib.Nat.{add-zero}
use relvec_db.Common.Ranges.{range, range_ext, range_split}
use relvec_db.TablePage.{Frame, write_bytes, bytes_from, page_size}

range-get_or :
    (bytes : List ℕ) (f : Frame) (i : ℕ)
    → ((j : ℕ) → j < length bytes → f (i + j) ≡ get_or bytes j 0)
    → range f i (length bytes) ≡ bytes
unfolding range
range-get_or [] f i h = refl
range-get_or (b ∷ bytes) f i h = ap₂ ◌∷◌ (simp (add-zero) at (h 0 (omega arith))) (
    range-get_or bytes f (suc i)
      (λ j l. let e : suc i + j ≡ i + suc j = omega arith in rw e (h (suc j) (omega arith))))

-- The bytes written are read back.
pub range-write_bytes :
    (off : ℕ) (bytes : List ℕ) (d : Frame)
    → range (write_bytes off bytes d) off (length bytes) ≡ bytes
unfolding write_bytes
range-write_bytes off bytes d =
    range-get_or bytes (write_bytes off bytes d) off
      (λ j h. let e : off + j - off ≡ j = omega arith in ground (arith, e))

-- Bytes before or behind those written stay.
pub range-write_bytes-apart :
    (off : ℕ) (bytes : List ℕ) (d : Frame) (i n : ℕ)
    → (i + n ≤ off) ⊎ (off + length bytes ≤ i)
    → range (write_bytes off bytes d) i n ≡ range d i n
unfolding write_bytes
range-write_bytes-apart off bytes d i n h =
    range_ext (write_bytes off bytes d) d i i n (λ j l. ground (arith, h))

pub write_bytes-apart :
    (off : ℕ) (bytes : List ℕ) (d : Frame) (i : ℕ)
    → (i < off) ⊎ (off + length bytes ≤ i)
    → write_bytes off bytes d i ≡ d i
unfolding write_bytes
write_bytes-apart off bytes d i h = ground (arith, h)

-- The bytes to the end of the page begin with those of any range before it.
pub bytes_from-range :
    (d : Frame) (off n : ℕ)
    → off + n ≤ page_size
    → bytes_from d off ≡ range d off n ++ bytes_from d (off + n)
unfolding bytes_from
bytes_from-range d off n h =
    let e : page_size - off ≡ n + (page_size - (off + n)) = omega arith in
    rw e (range_split d off n _)

pub write_bytes-here : (off b : ℕ) (d : Frame) → write_bytes off (b ∷ []) d off ≡ b
unfolding write_bytes
write_bytes-here off b d = let e : off - off ≡ 0 = omega arith in ground (arith, e)
