-- ===== src/TablePage/Flexible.antt =====
-- lib/sql/flexible.cpp, `FlixiblePage`: a byte with the number of rows, a byte with the size of each
-- row, and the rows themselves, from the end of the page downwards.
pub mod Append
pub mod Keep
use relvec_db.Common.{
  ℕ, zero, suc, ◌+◌, ◌-◌, ◌%◌, Bool, List, [], ◌∷◌, Option, none, some, length, take, get_elem?,
  ltb, leb, ◌==◌, if◌then◌else◌,
}
use relvec_db.Common.Ranges.{range}
use relvec_db.Common.Outcome.{Outcome, ok, fail, out_of_range, assertion, ◌>>=◌, ◌>>◌, guard}
use relvec_db.Row.{Schema, Row}
use relvec_db.Marshal
use relvec_db.Marshal.{serialize_row, deserialize_row}
use relvec_db.TablePage.{Frame, page_size, byte_at, bytes_from, write}

-- `setByIndex`: an `int` stored in a byte.
unfoldable pub set_by_index : ℕ → ℕ → Frame → Outcome Frame
unfolding write
set_by_index index value d = write index (value % 256 ∷ []) d

-- `getSizesRows`
abbrev pub get_sizes_rows : Frame → List ℕ
get_sizes_rows d = range d 1 (d 0)

-- The loops that add sizes.
unfoldable pub sum : List ℕ → ℕ
sum [] = 0
sum (n ∷ ns) = n + sum ns

-- `getRow` of a row with this size, where the sizes up to it add up to `real_index`: the empty row
-- past the rows of the page, and for a row of size 0.
unfoldable pub read_row : Schema → Frame → ℕ → Option ℕ → Outcome Row
unfolding bytes_from deserialize_row
read_row schema d real_index none = ok []
read_row schema d real_index (some len) =
    let read = (do
      guard (leb real_index page_size) out_of_range
      deserialize_row schema (bytes_from d (page_size - real_index))) in
    if len == 0 then ok [] else read

-- `getRow`
unfoldable pub get_row : Schema → Frame → ℕ → Outcome Row
unfolding sum read_row
get_row schema d index =
    let row_lengths = get_sizes_rows d in
    read_row schema d (sum (take (suc index) row_lengths)) (get_elem? row_lengths index)

-- What `insertRow` does with a row that the page has room for.
unfoldable pub append_row : Schema → Row → ℕ → Frame → Outcome (Option ℕ × Frame)
unfolding sum serialize_row write set_by_index
append_row schema row space_row d = do
  let row_lengths = get_sizes_rows d
  bytes ← serialize_row schema row
  d₁ ← write (page_size - sum row_lengths - space_row) bytes d
  d₂ ← set_by_index (1 + length row_lengths) space_row d₁
  guard (d₂ (1 + length row_lengths) == space_row) assertion
  d₃ ← set_by_index 0 (length row_lengths + 1) d₂
  ok (some (length row_lengths), d₃)

-- `insertRow`. The source's (false, -1) is `none`.
unfoldable pub insert_row : Schema → Row → Frame → Outcome (Option ℕ × Frame)
unfolding sum append_row Marshal.get_row_space
insert_row schema row d = do
  space_row ← Marshal.get_row_space schema row
  let row_lengths = get_sizes_rows d
  let appended = append_row schema row space_row d
  if ltb page_size (sum row_lengths + space_row + 2 + length row_lengths)
      then ok (none, d)
      else appended

-- The loops of `eraseRow`: bytes moved up by `len`, from offset `i` downwards, and bytes set to 0.
unfoldable pub move_from : ℕ → ℕ → ℕ → Frame → Outcome Frame
unfolding byte_at set_by_index
move_from zero i len d = ok d
move_from (suc n) i len d = do
  b ← byte_at d i
  d' ← set_by_index (i + len) b d
  move_from n (i - 1) len d'

unfoldable pub clear_from : ℕ → ℕ → Frame → Outcome Frame
unfolding set_by_index
clear_from zero i d = ok d
clear_from (suc n) i d = do d' ← set_by_index i 0 d; clear_from n (i + 1) d'

-- `eraseRow`. Sizes that add up to more than the page lead to offsets below it.
unfoldable pub erase_row : ℕ → ℕ → ℕ → Frame → Outcome Frame
unfolding move_from clear_from
erase_row len prev_sum all_sum d =
    let erased = (do
      guard (leb all_sum page_size) out_of_range
      d' ← move_from (all_sum + 1 - (len + prev_sum)) (page_size - len - prev_sum) len d
      clear_from len (page_size - all_sum) d') in
    if prev_sum == 0 then ok d else erased

-- `deleteRow`
unfoldable pub delete_row : ℕ → Frame → Outcome Frame
unfolding sum set_by_index erase_row
delete_row index d = do
  let row_lengths = get_sizes_rows d
  len ← elim (get_elem? row_lengths index) [ none ↦ fail out_of_range | some len ↦ ok len ]
  d' ← set_by_index (index + 1) 0 d
  erase_row len (sum (take index row_lengths)) (sum row_lengths) d'

-- `eraseLength`, which no other operation calls: the sizes behind `index` move down by one.
unfoldable pub shift_lengths : ℕ → ℕ → Frame → Outcome Frame
unfolding byte_at set_by_index
shift_lengths zero i d = ok d
shift_lengths (suc n) i d = do
  b ← byte_at d (i + 1)
  d' ← set_by_index i b d
  shift_lengths n (i + 1) d'

unfoldable pub erase_length : ℕ → Frame → Outcome Frame
unfolding set_by_index shift_lengths
erase_length index d = do
  let cnt_elems = d 0
  d₁ ← set_by_index 0 (cnt_elems + 255) d
  d₂ ← shift_lengths (cnt_elems - (index + 1)) (index + 1) d₁
  set_by_index cnt_elems 0 d₂
