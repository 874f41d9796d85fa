-- ===== src/BTree/Leaf.antt =====
-- lib/sql/btree_page.h, `BTreeLeafPage`: keys with row ids, linked to the neighbouring leaves.
pub mod Insert
pub mod Remove
use relvec_db.Common.{
  ℕ, zero, suc, ◌+◌, ◌-◌, ◌^◌, ◌/◌, Bool, true, false, List, [], ◌∷◌, Option, none, some, ltb, ◌==◌,
  ◌&&◌, if◌then◌else◌,
}
use relvec_db.Common.Int.{ℤ, negsuc}
use relvec_db.Common.Outcome.{
  Outcome, ok, fail, out_of_range, invalid_argument, runtime_error, ◌>>=◌, ◌>>◌, guard,
}
use relvec_db.Row.{Row, RowId, row_eq}
use relvec_db.Comparator.{less, equal, greater, compare_rows}
use relvec_db.BTree.Node.{
  Node, get_key, get_value, set_key, set_value, increase_size, shift_up, shift_down, move_up,
  copy_slots, insert_at, lower_bound_from, check_from,
}

pub record Leaf : Type 0 where
  pub node : Node RowId
  pub previous : ℤ
  pub next : ℤ

-- `InvalidPageIndex`
abbrev pub invalid_page_index : ℤ
invalid_page_index = negsuc 0

-- `calculateMaxKeysSize`: a page of 4096 bytes, a header of 16, and a row id of 8 in each slot.
unfoldable pub calculate_max_keys_size : ℕ → ℕ
calculate_max_keys_size key_size = (4096 - 16) / (8 + key_size)

-- The leaf with another node.
abbrev pub with_node : Leaf → Node RowId → Leaf
with_node p n = record p { node = n }

-- `insertEntry`
unfoldable pub insert_entry : ℕ → Row → RowId → Leaf → Outcome (Bool × Leaf)
unfolding insert_at
insert_entry index key value p =
    if ltb p.node.max_keys (p.node.size + 1)
    then ok (false, p)
    else (do n ← insert_at index key value p.node; ok (true, with_node p n))

-- `lowerBound`
unfoldable pub lower_bound : Row → Leaf → Outcome ℕ
unfolding lower_bound_from
lower_bound key p = lower_bound_from p.node.size 0 key p.node

-- `insert`, which refuses a key that is there already.
unfoldable pub insert : Row → RowId → Leaf → Outcome (Bool × Leaf)
unfolding lower_bound_from get_key increase_size shift_up set_key set_value
insert key value p = if ltb p.node.max_keys (p.node.size + 1) then ok (false, p) else (do
  index ← lower_bound_from p.node.size 0 key p.node
  found ←
      if ltb index p.node.size then (do k ← get_key p.node index; ok (row_eq k key)) else ok false
  guard (if found then false else true) invalid_argument
  let n = increase_size 1 p.node
  n ← shift_up (n.size - 1 - index) index n
  n ← set_key index key n
  n ← set_value index value n
  ok (true, with_node p n))

-- The loop of `lookup`.
unfoldable pub lookup_from : ℕ → ℕ → Row → Leaf → Outcome (Option RowId)
unfolding get_key get_value
lookup_from zero i key p = ok none
lookup_from (suc n) i key p = do
  k ← get_key p.node i
  let rest = lookup_from n (i + 1) key p
  let hit = (do v ← get_value p.node i; ok (some v))
  if row_eq k key then hit else rest

-- `lookup`
unfoldable pub lookup : Row → Leaf → Outcome (Option RowId)
unfolding lookup_from
lookup key p = lookup_from p.node.size 0 key p

-- The first loop of `remove`: the index of the first slot that compares as equal, or the size.
unfoldable pub find_equal : ℕ → ℕ → Row → Leaf → Outcome ℕ
unfolding get_key
find_equal zero i key p = ok i
find_equal (suc n) i key p = do
  k ← get_key p.node i
  c ← compare_rows k key
  let rest = find_equal n (i + 1) key p
  elim c [ equal ↦ ok i | less ↦ rest | greater ↦ rest ]

-- `remove`
unfoldable pub remove : Row → Leaf → Outcome (Bool × Leaf)
unfolding find_equal shift_down increase_size
remove key p = do
  index ← find_equal p.node.size 0 key p
  let gone = (do
    n ← shift_down (p.node.size - 1 - index) index p.node
    ok (true, with_node p (increase_size (2 ^ 32 - 1) n)))
  if index == p.node.size then ok (false, p) else gone

-- `checkCorrectness`. It starts at slot 1.
unfoldable pub check_correctness : Leaf → Outcome (Unit {0})
unfolding check_from
check_correctness p = if p.node.size == 0 then ok tt else check_from (p.node.size - 1 - 1) 1 p.node

-- `split`: this leaf keeps the lower half; the result is its greatest key, then both leaves.
unfoldable pub split : Leaf → Leaf → Outcome (Row × Leaf × Leaf)
unfolding check_correctness increase_size move_up copy_slots get_key
split p rhs = do
  check_correctness rhs
  check_correctness p
  let half_size = p.node.size / 2
  let m = p.node.size - half_size
  let r = increase_size m rhs.node
  r ← move_up r.size m r
  r ← copy_slots m half_size 0 p.node r
  check_correctness (with_node rhs r)
  guard (ltb 0 half_size) out_of_range
  top ← get_key p.node (half_size - 1)
  ok (top, with_node p (record p.node { size = half_size }), with_node rhs r)
