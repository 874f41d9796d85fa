-- ===== src/Master/Page/Words.antt =====
-- master/persistent_kv/flexible_page.cpp: what `setByIndex` writes, `getByIndex` reads.
use relvec_db.Common.{
  All, ℕ, suc, ◌+◌, ◌%◌, ◌<◌, ◌≤◌, ◌≡◌, refl, ◌∙◌, ◌⊎◌, inl, List, [], ◌∷◌, arith, length, ◌==◌,
  if◌then◌else◌, true,
}
use mathlib.Core.Path.{ap₂}
use relvec_db.Common.Ranges.{range}
use relvec_db.Master.Page.{Bytes, get_by_index, set_by_index, write_row, int_of_char, chars_from}

-- Of a number, sixteen bits are kept.
pub get_by_index-set_by_index :
    (index value : ℕ) (f : Bytes) (other : ℕ)
    → get_by_index (set_by_index index value f) other
      ≡ (if other == index then value % 65536 else get_by_index f other)
unfolding get_by_index set_by_index
get_by_index-set_by_index index value f other = ground arith

-- The loop that writes a row leaves the numbers before and after it.
pub write_row-apart :
    (row : List ℕ) (i : ℕ) (f : Bytes) (other : ℕ)
    → (other < i) ⊎ (i + length row ≤ other)
    → get_by_index (write_row i row f) other ≡ get_by_index f other
unfolding write_row
write_row-apart [] i f other h = refl
write_row-apart (c ∷ row) i f other h =
    write_row-apart row (suc i) _ other (omega (arith, h))
    ∙ get_by_index-set_by_index i (int_of_char c) f other
    ∙ (ground (arith, h))

-- The `char` that comes back.
char_back : (c : ℕ) → c < 256 → int_of_char c % 65536 % 256 ≡ c
char_back c h = ground (arith, h)

pub chars-write_row :
    (row : List ℕ) (i : ℕ) (f : Bytes)
    → All (λ c. c < 256) row
    → chars_from (write_row i row f) i (length row) ≡ row
unfolding write_row range
chars-write_row [] i f h = refl
chars-write_row (c ∷ row) i f (h, hs) =
    let here : i == i ≡ true = ground arith in
    let same =
      write_row-apart row (suc i) (set_by_index i (int_of_char c) f) i (inl (omega arith)) in
    let kept = get_by_index-set_by_index i (int_of_char c) f i in
    ap₂ ◌∷◌ (rw (same, kept, here) (char_back c h))
      (chars-write_row row (suc i) (set_by_index i (int_of_char c) f) hs)
