-- ===== src/BTree/Iterator.antt =====
-- lib/sql/btree.cpp, `BTreeIndexIterator` and `BTree::read`: the scan of the leaves.
pub mod Scan
use relvec_db.Common.{
  ℕ, zero, suc, ◌+◌, ◌-◌, ◌≤◌, Bool, true, false, List, [], ◌∷◌, Option, none, some, ltb, leb, ◌==◌,
  if◌then◌else◌,
}
use relvec_db.Common.Int.{ℤ, eqb_ℤ}
use relvec_db.Common.Outcome.{Outcome, ok, fail, no_fuel, out_of_range, ◌>>=◌}
use relvec_db.Row.{Row, RowId}
use relvec_db.BTree.Node.{get_key, get_value}
use relvec_db.BTree.Leaf.{Leaf, invalid_page_index}
use relvec_db.BTree.Table.{Page, Index, get_page, get_leaf, get_root, as_internal}
use relvec_db.BTree.Conditions.{KeyCondition, is_row_valid}

-- The iterator on an index that does not change while it is read.
pub record IndexIterator : Type 0 where
  pub leaf_page : Leaf
  pub leaf_page_offset : ℕ
  pub predicates : List KeyCondition
  pub is_end : Bool

-- The end of a round: the next slot, or the first slot of the next leaf.
unfoldable pub advance : Index → IndexIterator → Outcome IndexIterator
unfolding get_leaf
advance t it =
    let moved : IndexIterator = record it { leaf_page_offset = it.leaf_page_offset + 1 } in
    let next_leaf = (do
      p ← get_leaf t it.leaf_page.next
      ok (record it { leaf_page = p; leaf_page_offset = 0 })) in
    if ltb (it.leaf_page_offset + 1) it.leaf_page.node.size
    then ok moved
    else if eqb_ℤ it.leaf_page.next invalid_page_index
    then ok (record moved { is_end = true })
    else next_leaf

-- `nextRow`: one more slot in each round, so the number of slots bounds the rounds.
unfoldable pub next_row : ℕ → Index → IndexIterator → Outcome (Option (Row × RowId) × IndexIterator)
unfolding get_value get_key is_row_valid advance
next_row zero t it = fail no_fuel
next_row (suc fuel) t it =
    let round = (do
      cur_value ← get_value it.leaf_page.node it.leaf_page_offset
      cur_key ← get_key it.leaf_page.node it.leaf_page_offset
      should_return ← is_row_valid t.key_schema it.predicates cur_key
      it' ← advance t it
      let rest = next_row fuel t it'
      if should_return then ok (some (cur_key, cur_value), it') else rest) in
    if it.is_end
    then ok (none, it)
    else if leb it.leaf_page.node.size it.leaf_page_offset
    then ok (none, it)
    else round

-- The way of `read` to the leftmost leaf: the first slot of each page, whatever its kind.
unfoldable pub leftmost_page : (ℤ → Outcome Leaf) → Page → Outcome Leaf
unfolding get_value
leftmost_page go Page.invalid = fail out_of_range
leftmost_page go (Page.metadata m) = fail out_of_range
leftmost_page go (Page.internal p) = do child ← get_value p 0; go child
leftmost_page go (Page.leaf p) = ok p

unfoldable pub leftmost_leaf : ℕ → Index → ℤ → Outcome Leaf
unfolding get_page leftmost_page
leftmost_leaf zero t i = fail no_fuel
leftmost_leaf (suc fuel) t i = do p ← get_page t i; leftmost_page (leftmost_leaf fuel t) p

-- `read`
unfoldable pub read : ℕ → Index → List KeyCondition → Outcome IndexIterator
unfolding get_root leftmost_leaf
read fuel t predicates = do
  root ← get_root t
  p ← leftmost_leaf fuel t root
  ok (record { leaf_page = p; leaf_page_offset = 0; predicates = predicates; is_end = false })
