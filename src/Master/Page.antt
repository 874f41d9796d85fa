-- ===== src/Master/Page.antt =====
-- master/persistent_kv/flexible_page.cpp on the bytes of file_editor.cpp: a number takes four bytes,
-- four bits in each, and the page is an array of such numbers. An `int` is its bit pattern, a `char`
-- a byte. The bytes of the file are those that this code wrote, below 16.
pub mod Words
pub mod Append
use relvec_db.Common.{
  ℕ, zero, suc, ◌+◌, ◌-◌, ◌*◌, ◌/◌, ◌%◌, ◌^◌, Bool, List, [], ◌∷◌, Option, none, some, length, take,
  get_elem?, map, ltb, leb, ◌==◌, ◌||◌, if◌then◌else◌,
}
use relvec_db.Common.Ranges.{range}
use relvec_db.Common.Outcome.{
  Outcome, ok, fail, runtime_error, assertion, out_of_range, ◌>>=◌, ◌>>◌, guard,
}

-- The bytes of the file.
abbrev pub Bytes : Type 0
Bytes = ℕ → ℕ

-- `DISK_SIZE`, which is the size of the page.
abbrev pub page_size : ℕ
page_size = 10000000

-- `Set`
abbrev pub set_byte : ℕ → ℕ → Bytes → Bytes
set_byte i v f j = if j == i then v else f j

-- `getByIndex`
unfoldable pub get_by_index : Bytes → ℕ → ℕ
get_by_index f index =
    ((f (4 * index + 3) * 16 + f (4 * index + 2)) * 16 + f (4 * index + 1)) * 16 + f (4 * index)

-- `setByIndex`
unfoldable pub set_by_index : ℕ → ℕ → Bytes → Bytes
set_by_index index value f = set_byte (4 * index + 3) (value / 16 / 16 / 16 % 16) (
    set_byte (4 * index + 2) (value / 16 / 16 % 16)
      (set_byte (4 * index + 1) (value / 16 % 16) (set_byte (4 * index) (value % 16) f)))

-- `getCntRows`, `getRowCount`
abbrev pub get_cnt_rows : Bytes → ℕ
get_cnt_rows f = get_by_index f 0

-- `getSizesRows`
abbrev pub get_sizes_rows : Bytes → List ℕ
get_sizes_rows f = range (get_by_index f) 1 (get_cnt_rows f)

unfoldable pub total : List ℕ → ℕ
total [] = 0
total (n ∷ ns) = n + total ns

-- The `char`s from an index on.
abbrev pub chars_from : Bytes → ℕ → ℕ → List ℕ
chars_from f index n = range (λ j. get_by_index f j % 256) index n

-- `getRow` of a row of that length, where the lengths up to it add up to `real_index`.
unfoldable pub read_row : Bytes → ℕ → Option ℕ → Outcome (List ℕ)
unfolding range
read_row f real_index none = fail runtime_error
read_row f real_index (some len) = do
  guard (len == 0 || leb real_index page_size) runtime_error
  ok (chars_from f (page_size - real_index) len)

-- `getRow`
unfoldable pub get_row : Bytes → ℕ → Outcome (List ℕ)
unfolding total read_row
get_row f index =
    read_row f (total (take (suc index) (get_sizes_rows f))) (get_elem? (get_sizes_rows f) index)

-- A `char` converted to an `int`.
abbrev pub int_of_char : ℕ → ℕ
int_of_char c = if ltb c 128 then c else c + 2 ^ 32 - 256

-- The loop that writes the bytes of a row.
unfoldable pub write_row : ℕ → List ℕ → Bytes → Bytes
unfolding set_by_index
write_row index [] f = f
write_row index (c ∷ row) f = write_row (suc index) row (set_by_index index (int_of_char c) f)

-- What `insertRow` does with a row that the page has room for.
unfoldable pub append_row : List ℕ → List ℕ → Bytes → Outcome (Option ℕ × Bytes)
unfolding write_row set_by_index total
append_row row row_lengths f =
    let f₁ = write_row (page_size - total row_lengths - length row) row f in
    let f₂ = set_by_index (1 + length row_lengths) (length row) f₁ in
    let f₃ = set_by_index 0 (length row_lengths + 1) f₂ in
    do
      guard (get_by_index f₂ (1 + length row_lengths) == length row) assertion
      ok (some (length row_lengths), f₃)

-- `insertRow`. The source's (false, -1) is `none`.
unfoldable pub insert_row : List ℕ → Bytes → Outcome (Option ℕ × Bytes)
unfolding total append_row
insert_row row f =
    let row_lengths = get_sizes_rows f in
    if ltb page_size (total row_lengths + length row + 2 + length row_lengths)
    then ok (none, f)
    else append_row row row_lengths f

-- The loops of `eraseRow`.
unfoldable pub move_from : ℕ → ℕ → ℕ → Bytes → Bytes
unfolding set_by_index get_by_index
move_from zero i len f = f
move_from (suc n) i len f = move_from n (i - 1) len (set_by_index (i + len) (get_by_index f i) f)

unfoldable pub clear_from : ℕ → ℕ → Bytes → Bytes
unfolding set_by_index
clear_from zero i f = f
clear_from (suc n) i f = clear_from n (i + 1) (set_by_index i 0 f)

-- `eraseRow`. Lengths that add up to more than the page lead to an index below 0, where `Get` throws.
unfoldable pub erase_row : ℕ → ℕ → ℕ → Bytes → Outcome Bytes
unfolding move_from clear_from
erase_row len prev_sum all_sum f = do
  guard (leb all_sum page_size) runtime_error
  ok (
      clear_from len (page_size - all_sum)
        (move_from (all_sum + 1 - (len + prev_sum)) (page_size - len - prev_sum) len f))

-- `deleteRow`. An index past the rows is read out of bounds.
unfoldable pub delete_row : ℕ → Bytes → Outcome Bytes
unfolding total set_by_index erase_row
delete_row index f = do
  let row_lengths = get_sizes_rows f
  len ← elim (get_elem? row_lengths index) [ none ↦ fail out_of_range | some len ↦ ok len ]
  erase_row len (total (take index row_lengths)) (total row_lengths) (set_by_index (index + 1) 0 f)
