-- ===== src/TablePage/Fixed.antt =====
-- lib/sql/fixed.cpp, `FixedPage`: slots of one byte in use or not, and a row.
pub mod Rows
use relvec_db.Common.{
  ℕ, zero, suc, ◌+◌, ◌-◌, ◌*◌, ◌/◌, ◌≤◌, Bool, List, [], ◌∷◌, Option, none, some, ◌==◌,
  if◌then◌else◌,
}
use relvec_db.Common.Outcome.{Outcome, ok, ◌>>=◌, ◌>>◌}
use relvec_db.Row.{Schema, Row}
use relvec_db.Marshal.{get_fixed_row_space, serialize_row, deserialize_row}
use relvec_db.TablePage.{Frame, page_size, byte_at, bytes_from, write}

-- `getRowSpace`
unfoldable pub get_row_space : Schema → Outcome ℕ
unfolding get_fixed_row_space
get_row_space schema = do n ← get_fixed_row_space schema; ok (1 + n)

-- `getRowCapacity` and `getRowCount`
unfoldable pub get_row_capacity : Schema → Outcome ℕ
unfolding get_row_space
get_row_capacity schema = do space ← get_row_space schema; ok (page_size / space)

-- `getRow`: the empty row for a slot that is not in use.
unfoldable pub get_row : Schema → Frame → ℕ → Outcome Row
unfolding get_row_space byte_at bytes_from deserialize_row
get_row schema d index = do
  space ← get_row_space schema
  used ← byte_at d (index * space)
  if used == 0 then ok [] else deserialize_row schema (bytes_from d (index * space + 1))

-- `deleteRow`
unfoldable pub delete_row : Schema → ℕ → Frame → Outcome Frame
unfolding get_row_space write
delete_row schema index d = do space ← get_row_space schema; write (index * space) (0 ∷ []) d

-- The loop of `findRowSlot`, with `n` slots left from `i` on. The source's (false, -1) is `none`.
unfoldable pub find_row_slot_from : ℕ → ℕ → ℕ → Frame → Outcome (Option ℕ)
unfolding byte_at
find_row_slot_from zero i space d = ok none
find_row_slot_from (suc n) i space d = do
  used ← byte_at d (i * space)
  let rest = find_row_slot_from n (i + 1) space d
  if used == 0 then ok (some i) else rest

-- `findRowSlot`
unfoldable pub find_row_slot : Schema → Frame → Outcome (Option ℕ)
unfolding get_row_capacity get_row_space find_row_slot_from
find_row_slot schema d = do
  capacity ← get_row_capacity schema
  space ← get_row_space schema
  find_row_slot_from capacity 0 space d

-- What `insertRow` does with the slot that it found.
unfoldable pub insert_row_at : Schema → Row → Frame → Option ℕ → Outcome (Option ℕ × Frame)
unfolding get_row_space write serialize_row
insert_row_at schema row d none = ok (none, d)
insert_row_at schema row d (some index) = do
  space ← get_row_space schema
  d₁ ← write (index * space) (1 ∷ []) d
  bytes ← serialize_row schema row
  d₂ ← write (index * space + 1) bytes d₁
  ok (some index, d₂)

-- `insertRow`
unfoldable pub insert_row : Schema → Row → Frame → Outcome (Option ℕ × Frame)
unfolding find_row_slot insert_row_at
insert_row schema row d = do slot ← find_row_slot schema d; insert_row_at schema row d slot
