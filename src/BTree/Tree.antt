-- ===== src/BTree/Tree.antt =====
-- lib/sql/btree.cpp, `BTree`: construction, lookup, insertion and removal.
-- A call that throws is `fail`, and what it had already written is not followed further. The search
-- loops are `while (true)`, so they take fuel: the pages that they may visit.
pub mod LeafLookup
pub mod Linear
pub mod Descend
pub mod Written
pub mod Insert
pub mod Remove
use relvec_db.Common.{
  ℕ, zero, suc, ◌+◌, ◌-◌, ◌*◌, ◌/◌, Bool, true, false, List, [], ◌∷◌, Option, none, some, ltb, leb,
  ◌==◌, if◌then◌else◌,
}
use relvec_db.Common.Int.{ℤ, pos, negsuc, eqb_ℤ}
use relvec_db.Common.Outcome.{
  Outcome, ok, fail, out_of_range, runtime_error, no_fuel, ◌>>=◌, ◌>>◌, guard,
}
use relvec_db.Row.{Row, RowId, row_eq}
use relvec_db.Comparator.{Sign, less, equal, greater, compare_rows}
use relvec_db.BTree.Node.{Node, get_key, get_value, set_key}
use relvec_db.BTree.Leaf
use relvec_db.BTree.Leaf.{Leaf, invalid_page_index}
use relvec_db.BTree.Internal
use relvec_db.BTree.Internal.{Internal}
use relvec_db.BTree.Table.{
  Page, Metadata, Index, get_page, set_page, get_leaf, get_internal, allocate_leaf_page,
  allocate_internal_page, allocate_metadata_page, get_root, set_root, as_metadata,
}

-- The constructor, on an index file of no page or of some.
unfoldable pub open_index : Index → Outcome Index
unfolding allocate_metadata_page allocate_leaf_page set_page get_page as_metadata
open_index t =
    let (m, metadata_index, t₁) = allocate_metadata_page t in
    let (root, root_index, t₂) = allocate_leaf_page t₁ in
    let t₃ =
      set_page root_index
        (Page.leaf (record root { previous = invalid_page_index; next = invalid_page_index })) t₂ in
    let fresh = ok (
      set_page metadata_index
        (Page.metadata (record {
          root = root_index;
          key_size_in_bytes = t.key_size;
          max_page_size = t.max_page_size;
        }))
        t₃) in
    let opened = (do
      p ← get_page t (pos 0)
      m ← as_metadata p
      guard (t.key_size == m.key_size_in_bytes) runtime_error
      guard (t.max_page_size == m.max_page_size) runtime_error
      ok t) in
    if t.page_count == 0 then fresh else opened

-- The child that a search takes: the slot at the lower bound, or the last one.
unfoldable pub child_slot : Row → Internal → Outcome (ℕ × ℤ)
unfolding Internal.lower_bound get_value
child_slot key p = do
  bound ← Internal.lower_bound key p
  guard (ltb 0 p.size) out_of_range
  let slot = if bound == p.size then bound - 1 else bound
  child ← get_value p slot
  ok (slot, child)

-- The slots taken on the way down, last first, and the page index of the leaf.
abbrev pub Way : Type 0
Way = List (ℤ × ℕ) × ℤ × Leaf

-- One round of the loop on the way down of `insert` and `remove`. A page that is invalid makes
-- `insert` throw, and the other calls read it for ever.
unfoldable pub descend_page :
    Bool → (ℤ → List (ℤ × ℕ) → Outcome Way) → Row → ℤ → List (ℤ × ℕ) → Page → Outcome Way
unfolding child_slot
descend_page throws go key i stack Page.invalid =
    if throws then fail runtime_error else fail no_fuel
descend_page throws go key i stack (Page.metadata m) = go m.root stack
descend_page throws go key i stack (Page.internal n) = do
  (slot, child) ← child_slot key n
  go child ((i, slot) ∷ stack)
descend_page throws go key i stack (Page.leaf p) = ok (stack, i, p)

unfoldable pub descend : Bool → ℕ → Index → Row → ℤ → List (ℤ × ℕ) → Outcome Way
unfolding get_page descend_page
descend throws zero t key i stack = fail no_fuel
descend throws (suc fuel) t key i stack = do
  p ← get_page t i
  descend_page throws (descend throws fuel t key) key i stack p

-- The last part of `lookup`, at the leaf.
unfoldable pub leaf_lookup : Row → Leaf → Outcome (Option RowId)
unfolding Leaf.lower_bound get_value get_key
leaf_lookup key p = do
  index ← Leaf.lower_bound key p
  let found = (do
    answer ← get_value p.node index
    k ← get_key p.node index
    ok (if row_eq k key then some answer else none))
  if leb p.node.size index then ok none else found

-- `lookup`, with the row id that it appends to its result.
unfoldable pub lookup : ℕ → Row → Index → Outcome (Option RowId)
unfolding get_root descend leaf_lookup
lookup fuel key t = do
  root ← get_root t
  (stack, i, p) ← descend false fuel t key root []
  leaf_lookup key p

-- The split of a full leaf by `insert`: both halves with the new entry in one of them, and the
-- greatest keys of the halves.
unfoldable pub split_insert : Row → RowId → Leaf → Leaf → Outcome (Leaf × Leaf × Row × Row)
unfolding Leaf.split Leaf.insert_entry Leaf.lower_bound get_key
split_insert key value p new = do
  (top, p₁, new₁) ← Leaf.split p new
  c ← compare_rows top key
  let right = (do
    at ← Leaf.lower_bound key new₁
    (done, new₂) ← Leaf.insert_entry at key value new₁
    ok (p₁, new₂))
  let left = (do
    at ← Leaf.lower_bound key p₁
    (done, p₂) ← Leaf.insert_entry at key value p₁
    ok (p₂, new₁))
  (p', new') ← elim c [ less ↦ right | equal ↦ left | greater ↦ left ]
  max_left ← get_key p'.node (p'.node.size - 1)
  max_right ← get_key new'.node (new'.node.size - 1)
  order ← compare_rows max_left max_right
  ok (p', new', max_left, max_right)

-- A split below an internal page: its key goes down to the left half, and the right half gets a
-- slot behind it. A full internal page is not split, the call throws.
unfoldable pub split_in_parent : ℤ → ℕ → Row → Row → ℤ → Index → Outcome Index
unfolding get_internal set_key Internal.insert_entry set_page
split_in_parent parent slot max_left max_right right_index t = do
  p ← get_internal t parent
  p ← set_key slot max_left p
  (inserted, p) ← Internal.insert_entry (slot + 1) max_right right_index p
  guard inserted runtime_error
  ok (set_page parent (Page.internal p) t)

-- A split of the root leaf: a new internal root over the two halves.
unfoldable pub split_root : ℤ → Row → Row → ℤ → Index → Outcome Index
unfolding allocate_internal_page Internal.insert_first_entry Internal.insert_entry get_leaf set_page
    set_root
split_root left_index max_left max_right right_index t = do
  let (p, root, t₁) = allocate_internal_page t
  p ← Internal.insert_first_entry left_index p
  (done, p) ← Internal.insert_entry 1 max_left left_index p
  (done', p) ← Internal.insert_entry 2 max_right right_index p
  let t₂ = set_page root (Page.internal p) t₁
  left ← get_leaf t₂ left_index
  let t₃ =
      set_page left_index
        (Page.leaf (record left { previous = invalid_page_index; next = right_index })) t₂
  right ← get_leaf t₃ right_index
  let t₄ =
      set_page right_index
        (Page.leaf (record right { previous = left_index; next = invalid_page_index })) t₃
  set_root root t₄

-- The branch of `insert` for a leaf without room.
unfoldable pub insert_split : Row → RowId → List (ℤ × ℕ) → ℤ → Leaf → Index → Outcome Index
unfolding allocate_leaf_page get_internal get_value split_insert set_page get_root split_in_parent
    split_root
insert_split key value [] i p t = do
  let (new, right_index, t₁) = allocate_leaf_page t
  let new₁ = record new { next = p.next }
  let p₁ = record p { next = right_index }
  (p₂, new₂, max_left, max_right) ← split_insert key value p₁ new₁
  let t₂ = set_page right_index (Page.leaf new₂) (set_page i (Page.leaf p₂) t₁)
  left_index ← get_root t₂
  split_root left_index max_left max_right right_index t₂
insert_split key value ((parent, slot) ∷ stack) i p t = do
  let (new, right_index, t₁) = allocate_leaf_page t
  n ← get_internal t₁ parent
  cur_id ← get_value n slot
  let new₁ = record new { next = p.next; previous = cur_id }
  let p₁ = record p { next = right_index }
  (p₂, new₂, max_left, max_right) ← split_insert key value p₁ new₁
  let t₂ = set_page right_index (Page.leaf new₂) (set_page i (Page.leaf p₂) t₁)
  split_in_parent parent slot max_left max_right right_index t₂

-- `insert`
unfoldable pub insert : ℕ → Row → RowId → Index → Outcome Index
unfolding get_root descend Leaf.lower_bound Leaf.insert_entry set_page insert_split
insert fuel key value t = do
  root ← get_root t
  (stack, i, p) ← descend true fuel t key root []
  index ← Leaf.lower_bound key p
  (inserted, q) ← Leaf.insert_entry index key value p
  let split = insert_split key value stack i p t
  if inserted then ok (set_page i (Page.leaf q) t) else split

-- The neighbours of an emptied leaf, linked to one another.
unfoldable pub relink : Leaf → Index → Outcome Index
unfolding get_leaf set_page
relink p t = do
  t₁ ← if eqb_ℤ p.previous invalid_page_index then ok t else (do
    prev ← get_leaf t p.previous
    ok (set_page p.previous (Page.leaf (record prev { next = p.next })) t))
  if eqb_ℤ p.next invalid_page_index then ok t₁ else (do
    next ← get_leaf t₁ p.next
    ok (set_page p.next (Page.leaf (record next { previous = p.previous })) t₁))

-- A new empty leaf as the root, with the metadata written again.
unfoldable pub reset_root : Index → Outcome Index
unfolding allocate_leaf_page set_page get_page as_metadata
reset_root t = do
  let (root, root_index, t₁) = allocate_leaf_page t
  let t₂ =
      set_page root_index
        (Page.leaf (record root { previous = invalid_page_index; next = invalid_page_index })) t₁
  p ← get_page t₂ (pos 0)
  m ← as_metadata p
  ok (
      set_page (pos 0)
        (Page.metadata (record {
          root = root_index;
          key_size_in_bytes = t.key_size;
          max_page_size = t.max_page_size;
        }))
        t₂)

-- The loop that takes the slot of an emptied page out of its parent, and goes on upwards while the
-- parent has at most one slot left.
unfoldable pub remove_slots : List (ℤ × ℕ) → Index → Outcome Index
unfolding get_internal Internal.remove_by_index set_page reset_root
remove_slots [] t = ok t
remove_slots ((parent, slot) ∷ stack) t = do
  p ← get_internal t parent
  p ← Internal.remove_by_index slot p
  let t₁ = set_page parent (Page.internal p) t
  let go_on = remove_slots stack t₁
  let emptied = (do
    q ← Internal.remove_by_index 0 p
    let t₂ = set_page parent (Page.internal q) t₁
    t₃ ← elim stack [ [] ↦ reset_root t₂ | above ∷ rest ↦ ok t₂ ]
    remove_slots stack t₃)
  if ltb 1 p.size then ok t₁ else if p.size == 1 then emptied else go_on

-- What follows the removal from the leaf `q`, which is written already. The root leaf may become
-- empty; another leaf that does is unlinked, and its slot goes.
unfoldable pub finish_remove : List (ℤ × ℕ) → Bool → Leaf → Index → Outcome (Bool × Index)
unfolding relink remove_slots
finish_remove [] removed q t = ok (removed, t)
finish_remove (above ∷ rest) removed q t =
    let emptied = (do t₁ ← relink q t; t₂ ← remove_slots (above ∷ rest) t₁; ok (true, t₂)) in
    if removed then (if q.node.size == 0 then emptied else ok (true, t)) else ok (false, t)

-- `remove`, which is `remove_with_ignore_limitations`.
unfoldable pub remove : ℕ → Row → Index → Outcome (Bool × Index)
unfolding get_root descend Leaf.remove set_page finish_remove
remove fuel key t = do
  root ← get_root t
  (stack, i, p) ← descend false fuel t key root []
  (removed, q) ← Leaf.remove key p
  finish_remove stack removed q (set_page i (Page.leaf q) t)
