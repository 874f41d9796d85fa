-- ===== src/BTree/Internal.antt =====
-- lib/sql/btree_page.h, `BTreeInternalPage`: keys with the page indexes of children. The key of
-- slot 0 is never read by a search.
use relvec_db.Common.{ℕ, ◌+◌, ◌-◌, ◌/◌, ◌^◌, Bool, true, false, ltb, suc, zero, if◌then◌else◌}
use relvec_db.Common.Int.{ℤ}
use relvec_db.Common.Outcome.{Outcome, ok, ◌>>=◌}
use relvec_db.Row.{Row, row_eq}
use relvec_db.BTree.Node.{
  Node, get_key, get_value, set_value, increase_size, insert_at, shift_down, lower_bound_from,
}

abbrev pub Internal : Type 0
Internal = Node ℤ

-- `calculateMaxKeysSize`: a page of 4096 bytes, a header of 8, and a page index of 4 in each slot.
unfoldable pub calculate_max_keys_size : ℕ → ℕ
calculate_max_keys_size key_size = (4096 - 8) / (key_size + 4)

-- `insertFirstEntry`
unfoldable pub insert_first_entry : ℤ → Internal → Outcome Internal
unfolding increase_size set_value
insert_first_entry value p = set_value 0 value (increase_size 1 p)

-- `insertEntry`
unfoldable pub insert_entry : ℕ → Row → ℤ → Internal → Outcome (Bool × Internal)
unfolding insert_at
insert_entry index key value p =
    if ltb p.max_keys (p.size + 1)
    then ok (false, p)
    else (do q ← insert_at index key value p; ok (true, q))

-- `lowerBound`, which starts at slot 1.
unfoldable pub lower_bound : Row → Internal → Outcome ℕ
unfolding lower_bound_from
lower_bound key p = lower_bound_from (p.size - 1) 1 key p

-- `removeByIndex`
unfoldable pub remove_by_index : ℕ → Internal → Outcome Internal
unfolding shift_down increase_size
remove_by_index index p = do
  q ← shift_down (p.size - 1 - index) index p
  ok (increase_size (2 ^ 32 - 1) q)

-- The loop of `lookupWithIndex`, with the first slot as the answer where no key is equal.
unfoldable pub lookup_with_index_from : ℕ → ℕ → Row → Internal → Outcome (ℤ × ℕ)
unfolding get_key get_value
lookup_with_index_from zero i key p = do v ← get_value p 0; ok (v, 0)
lookup_with_index_from (suc n) i key p = do
  k ← get_key p i
  let rest = lookup_with_index_from n (i + 1) key p
  let hit = (do v ← get_value p i; ok (v, i))
  if row_eq k key then hit else rest

-- `lookupWithIndex`
unfoldable pub lookup_with_index : Row → Internal → Outcome (ℤ × ℕ)
unfolding lookup_with_index_from
lookup_with_index key p = lookup_with_index_from p.size 0 key p
