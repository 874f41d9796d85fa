-- ===== src/BTree/Leaf/Insert.antt =====
-- lib/sql/btree_page.h, `BTreeLeafPage::insertEntry`: the slots after it.
use relvec_db.Common.{
  ℕ, ◌+◌, ◌-◌, ◌^◌, ◌<◌, ◌≤◌, ◌≡◌, refl, true, false, List, ◌∷◌, ◌++◌, arith, lt→ltb,
}
use relvec_db.Common.Ranges.{range}
use relvec_db.Common.Outcome.{ok}
use relvec_db.Row.{Row, RowId}
use relvec_db.BTree.Node.{Entry, Node}
use relvec_db.BTree.Node.Keys.{IsKey}
use relvec_db.BTree.Node.Entries.{inserted, insert_at_lem, range-inserted}
use relvec_db.BTree.Leaf.{Leaf, with_node, insert_entry}

-- The slots in use, in order.
abbrev pub entries : Leaf → List (Entry RowId)
entries p = range p.node.slots 0 p.node.size

-- The slots lie within the page, which has room for fewer than 2 ^ 32 of them.
pub record IsLeaf (p : Leaf) : Type 0 where
  pub within : p.node.size ≤ p.node.max_keys
  pub small : p.node.max_keys < 2 ^ 32

-- A page without room is left alone, and the call returns false.
pub insert_entry-full :
    (index : ℕ) (key : Row) (value : RowId) (p : Leaf)
    → p.node.max_keys ≤ p.node.size
    → insert_entry index key value p ≡ ok (false, p)
unfolding insert_entry
insert_entry-full index key value p h = rw (lt→ltb p.node.max_keys (p.node.size + 1) (omega arith))

-- The page that an insertion with room leaves.
pub insert_entry-inserted :
    (index : ℕ) (key : Row) (value : RowId) (p : Leaf)
    → IsLeaf p
    → p.node.size < p.node.max_keys
    → index ≤ p.node.size
    → IsKey p.node.key_schema key
    → insert_entry index key value p
      ≡ ok (
        true,
        with_node p (record p.node {
          size = p.node.size + 1;
          slots = inserted p.node.slots p.node.size index (record { key = key; value = value });
        }),
      )
unfolding insert_entry
insert_entry-inserted index key value p v room h k =
    ground (arith, insert_at_lem index key value p.node room v.small h k)

-- In a leaf of fewer than 2 ^ 32 slots with room, `insertEntry` of a key that fits the schema of
-- keys, which has no string column and is that of a marshal (fewer than 64 values, no zero byte in
-- a varchar), at an index up to its size succeeds: the new entry stands at the index, with the key
-- as it was given, the entries from there on move up by one, and the links stay.
pub insert_entry_lem :
    (index : ℕ) (key : Row) (value : RowId) (p : Leaf)
    → IsLeaf p
    → p.node.size < p.node.max_keys
    → index ≤ p.node.size
    → IsKey p.node.key_schema key
    → let e : Entry RowId = record { key = key; value = value } in
      (q : Leaf) × (insert_entry index key value p ≡ ok (true, q))
      × (entries q
          ≡ range p.node.slots 0 index ++ (e ∷ range p.node.slots index (p.node.size - index)))
      × (q.previous ≡ p.previous)
      × (q.next ≡ p.next)
unfolding insert_entry
insert_entry_lem index key value p v room h k =
    let e : Entry RowId = record { key = key; value = value } in
    let n : Node RowId = record p.node {
      size = p.node.size + 1;
      slots = inserted p.node.slots p.node.size index e;
    } in
    (
      with_node p n,
      insert_entry-inserted index key value p v room h k,
      range-inserted p.node.slots p.node.size index e h,
      refl,
      refl,
    )
