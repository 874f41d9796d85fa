-- ===== src/BTree/Tests.antt =====
-- A concrete index of an internal root over two leaves, and the laws of lib/sql/btree.cpp at it.
use relvec_db.Common.{
  ℕ, suc, ◌-◌, ◌++◌, ◌<◌, ◌≡◌, ◌≢◌, ◌⊎◌, inl, inr, refl, true, false, [], ◌∷◌, some, none, arith,
  ◌==◌, if◌then◌else◌,
}
use relvec_db.Common.Int.{ℤ, pos}
use relvec_db.Common.Outcome.{ok, fail, ◌>>=◌}
use relvec_db.Row.{ColumnType, Schema, Row, RowId, uint64, row_eq, bytes_eq}
use relvec_db.Marshal.{get_fixed_row_space}
use relvec_db.BTree.Node.Keys.{IsKey}
use relvec_db.Comparator.{compare_rows, compare_ℕ}
use relvec_db.BTree.Node.{Entry, lower_bound_from}
use relvec_db.BTree.Leaf.{Leaf, invalid_page_index}
use relvec_db.BTree.Internal.{Internal}
use relvec_db.BTree.Table.{Page, Index, get_root, get_leaf}
use relvec_db.BTree.Tree.{Way, leaf_lookup, insert, remove, lookup, descend}
use relvec_db.BTree.Tree.Linear.{leaf_lookup-lookup}
use relvec_db.BTree.Tree.LeafLookup.{IsSearchable}
use relvec_db.BTree.Tree.Remove.{IsRemovable, lookup-remove, lookup-remove_other}
use relvec_db.BTree.Iterator.{read}
use relvec_db.BTree.Iterator.Scan.{collect, collect-Chain, at_slot, last, link}
use relvec_db.Common.Ranges.{range}
use relvec_db.BTree.Node.Search.{IsLowerBound, lower_bound_from_lem}
use relvec_db.BTree.Leaf
use relvec_db.BTree.Leaf.Insert.{IsLeaf, entries, insert_entry_lem}
use relvec_db.BTree.Leaf.Remove.{remove_lem}
use relvec_db.BTree.Conditions.{KeyCondition, greater_than, is_row_valid}
use relvec_db.BTree.Tree.Insert.{IsRoom, lookup-insert, lookup-insert_other}

abbrev key : ℕ → Row
key n = uint64 n ∷ []

abbrev key_columns : Schema
key_columns = record { name = []; type = ColumnType.uint64; len = 0 } ∷ []

abbrev row_id : ℕ → RowId
row_id n = record { page_index = pos 7; row_index = pos n }

abbrev slot : ℕ → Entry RowId
slot n = record { key = key n; value = row_id n }

abbrev child : ℕ → ℕ → Entry ℤ
child n i = record { key = key n; value = pos i }

-- Two keys in a leaf of room for four.
abbrev two_keys : ℕ → ℕ → ℤ → ℤ → Leaf
two_keys a b previous next = record {
  node = record {
    key_schema = key_columns;
    max_keys = 4;
    size = 2;
    slots = λ j. if j == 0 then slot a else if j == 1 then slot b else slot 0;
  };
  previous = previous;
  next = next;
}

abbrev left_leaf : Leaf
left_leaf = two_keys 10 30 invalid_page_index (pos 2)

abbrev right_leaf : Leaf
right_leaf = two_keys 50 70 (pos 1) invalid_page_index

abbrev root_page : Internal
root_page = record {
  key_schema = key_columns;
  max_keys = 4;
  size = 3;
  slots = λ j. if j == 1 then child 30 1 else if j == 2 then child 70 2 else child 0 1;
}

abbrev index : Index
index = record {
  pages = λ j.
      if j == 0
      then Page.metadata (record { root = pos 3; key_size_in_bytes = 8; max_page_size = 4096 })
      else if j == 1
      then Page.leaf left_leaf
      else if j == 2
      then Page.leaf right_leaf
      else Page.internal root_page;
  page_count = 4;
  key_schema = key_columns;
  key_size = 8;
  max_page_size = 4096;
  zero_key = key 0;
}

abbrev way : Way
way = ((pos 3, 1) ∷ [], pos 1, left_leaf)

lookup_run : lookup 2 (key 50) index ≡ ok (some (row_id 50))
unfolding lookup compare_rows compare_ℕ row_eq
lookup_run = refl

no_key_run : lookup 2 (key 51) index ≡ ok none
unfolding lookup compare_rows compare_ℕ row_eq
no_key_run = refl

two : (j : ℕ) → j < 2 → (j ≡ 0) ⊎ (j ≡ 1)
two j h = ground arith

left_leaf-IsSearchable : (n : ℕ) → IsSearchable (key n) left_leaf
unfolding compare_rows compare_ℕ
left_leaf-IsSearchable n = record {
  valid = record { within = omega arith; small = omega arith };
  sorted = λ i j h k. let (a, b) : (i ≡ 0) × (j ≡ 1) = (omega arith, omega arith) in rw (a, b) refl;
  comparable = λ j h. elim (two j h) [ inl e ↦ rw e (tt, tt) | inr e ↦ rw e (tt, tt) ];
}

key_20-IsKey : IsKey key_columns (key 20)
unfolding get_fixed_row_space
key_20-IsKey = record {
  key_size = 16;
  marshal = refl;
  fixed = (λ e. cc, tt);
  fits = (omega arith, tt);
  short = omega arith;
}

left_leaf-IsRoom : IsRoom 2 (key 20) index (pos 3) way
unfolding descend get_root compare_rows compare_ℕ
left_leaf-IsRoom = record {
  at_root = refl;
  reaches = refl;
  searchable = left_leaf-IsSearchable 20;
  absent = λ j h. elim (two j h) [ inl e ↦ rw e (λ q. cc) | inr e ↦ rw e (λ q. cc) ];
  fits = key_20-IsKey;
  room = omega arith;
}

lookup-insert_example :
    (t : Index) × (insert 2 (key 20) (row_id 20) index ≡ ok t)
    × (lookup 2 (key 20) t ≡ ok (some (row_id 20)))
lookup-insert_example =
    lookup-insert 2 (key 20) (row_id 20) index (pos 3) way left_leaf-IsRoom (tt, tt)

lookup-insert_other_example :
    lookup 2 (key 10) (elim (insert 2 (key 20) (row_id 20) index) [ ok t ↦ t | fail e ↦ index ])
    ≡ lookup 2 (key 10) index
unfolding insert descend get_root compare_rows compare_ℕ
lookup-insert_other_example =
    lookup-insert_other 2 (key 20) (row_id 20) index (pos 3) way left_leaf-IsRoom (key 10) way _
      refl (tt, tt) (left_leaf-IsSearchable 10) (λ e. cc) refl

left_leaf-IsRemovable : IsRemovable 2 (key 10) index (pos 3) way 0
unfolding descend get_root compare_rows compare_ℕ
left_leaf-IsRemovable = record {
  at_root = refl;
  reaches = refl;
  searchable = left_leaf-IsSearchable 10;
  several = omega arith;
  within = omega arith;
  holds = refl;
}

lookup-remove_example :
    (t : Index) × (remove 2 (key 10) index ≡ ok (true, t)) × (lookup 2 (key 10) t ≡ ok none)
lookup-remove_example = lookup-remove 2 (key 10) index (pos 3) way 0 left_leaf-IsRemovable

lookup-remove_other_example :
    lookup 2 (key 30) (elim (remove 2 (key 10) index) [ ok r ↦ r.1 | fail e ↦ index ])
    ≡ lookup 2 (key 30) index
unfolding remove descend get_root compare_rows compare_ℕ
lookup-remove_other_example =
    lookup-remove_other 2 (key 10) index (pos 3) way 0 left_leaf-IsRemovable (key 30) way true _
      refl (left_leaf-IsSearchable 30) (λ e. cc) refl

-- A leaf that loses its last key: the slot of the left leaf goes, and the right leaf stays.
emptied_run :
    (remove 2 (key 10) index >>= λ x. remove 2 (key 30) x.1 >>= λ y. lookup 2 (key 50) y.1)
    ≡ ok (some (row_id 50))
unfolding remove lookup compare_rows compare_ℕ row_eq
emptied_run = refl

collect-Chain_example :
    collect 5 index (at_slot left_leaf 0)
    ≡ ok
        ((key 10, row_id 10) ∷ (key 30, row_id 30) ∷ (key 50, row_id 50) ∷ (key 70, row_id 70) ∷ [])
unfolding collect range get_leaf
collect-Chain_example =
    collect-Chain index left_leaf _ (omega arith) (omega arith)
      (link right_leaf refl refl (omega arith) (omega arith) (last refl))

-- The scan of the index starts there.
read_run : read 2 index [] ≡ ok (at_slot left_leaf 0)
unfolding read
read_run = refl

-- Once the leftmost leaf is emptied, slot 0 of the root still leads to it, and a scan of the index
-- finds nothing, though a lookup finds the keys of the other leaf.
emptied_leftmost_run :
    (remove 2 (key 10) index >>= λ x.
    remove 2 (key 30) x.1 >>= λ y. read 2 y.1 [] >>= λ it. collect 1 y.1 it)
    ≡ ok []
unfolding remove compare_rows compare_ℕ row_eq read collect
emptied_leftmost_run = refl

left_leaf-IsLeaf : IsLeaf left_leaf
left_leaf-IsLeaf = (left_leaf-IsSearchable 20).valid

insert_entry_lem_example :
    (q : Leaf) × (Leaf.insert_entry 1 (key 20) (row_id 20) left_leaf ≡ ok (true, q))
    × (entries q ≡ slot 10 ∷ slot 20 ∷ slot 30 ∷ [])
    × (q.previous ≡ invalid_page_index)
    × (q.next ≡ pos 2)
unfolding range
insert_entry_lem_example =
    insert_entry_lem 1 (key 20) (row_id 20) left_leaf left_leaf-IsLeaf (omega arith) (omega arith)
      key_20-IsKey

remove_lem_example :
    ((Leaf.remove (key 10) left_leaf ≡ ok (false, left_leaf))
      × ((j : ℕ) → j < 2 → (left_leaf.node.slots j).key ≢ key 10))
    ⊎ ((r : ℕ) × (q : Leaf) × (Leaf.remove (key 10) left_leaf ≡ ok (true, q))
        × (r < 2)
        × ((left_leaf.node.slots r).key ≡ key 10)
        × (entries q
            ≡ range left_leaf.node.slots 0 r ++ range left_leaf.node.slots (suc r) (2 - 1 - r)))
remove_lem_example =
    remove_lem (key 10) left_leaf left_leaf-IsLeaf (left_leaf-IsSearchable 10).comparable

lower_bound_from_lem_example :
    (r : ℕ) × (lower_bound_from 2 0 (key 20) left_leaf.node ≡ ok r)
    × IsLowerBound (key 20) left_leaf.node 0 r
lower_bound_from_lem_example =
    lower_bound_from_lem 2 0 (key 20) left_leaf.node refl (omega arith)
      (left_leaf-IsSearchable 20).comparable

abbrev condition : KeyCondition
condition = record {
  column = record { name = []; type = ColumnType.uint64; len = 0 };
  comparator = greater_than;
  value = uint64 20;
}

condition_run : is_row_valid index.key_schema (condition ∷ []) (key 30) ≡ ok true
unfolding is_row_valid bytes_eq compare_rows compare_ℕ
condition_run = refl

equal_key_run : is_row_valid index.key_schema (condition ∷ []) (key 20) ≡ ok false
unfolding is_row_valid bytes_eq compare_rows compare_ℕ
equal_key_run = refl

leaf_lookup-lookup_example : leaf_lookup (key 30) left_leaf ≡ Leaf.lookup (key 30) left_leaf
leaf_lookup-lookup_example = leaf_lookup-lookup (key 30) left_leaf (left_leaf-IsSearchable 30)
