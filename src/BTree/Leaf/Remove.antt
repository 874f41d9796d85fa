-- ===== src/BTree/Leaf/Remove.antt =====
-- lib/sql/btree_page.h, `BTreeLeafPage::remove`: the slots after it.
use native.Mathlib.Decide.{dec_lt}
use relvec_db.Common.{
  ℕ, zero, suc, ◌+◌, ◌-◌, ◌^◌, ◌%◌, ◌<◌, ◌≤◌, ◌≡◌, ◌≢◌, ◌⊎◌, inl, inr, refl, true, false, ◌++◌,
  arith, ltb, lt→ltb, ◌==◌,
}
use relvec_db.Common.Ranges.{range}
use relvec_db.Common.Outcome.{ok}
use relvec_db.Row.{Row}
use relvec_db.Comparator.{Sign, less, equal, greater, compare_rows}
use relvec_db.Comparator.Order.{compare_rows_total, compare_rows-equal}
use relvec_db.BTree.Node.{get_key}
use relvec_db.BTree.Node.Entries.{moved_down, shift_down_lem, range-remove}
use relvec_db.BTree.Node.Search.{IsSorted, Comparable}
use relvec_db.BTree.Leaf.{Leaf, with_node, find_equal, remove}
use relvec_db.BTree.Leaf.Insert.{IsLeaf, entries}

-- What the first loop of `remove` promises.
pub record IsFirstEqual (key : Row) (p : Leaf) (i r : ℕ) : Type 0 where
  pub from : i ≤ r
  pub within : r ≤ p.node.size
  pub before : (j : ℕ) → i ≤ j → j < r → (p.node.slots j).key ≢ key
  pub here : r < p.node.size → (p.node.slots r).key ≡ key

pub find_equal_lem :
    (n i : ℕ) (key : Row) (p : Leaf)
    → i + n ≡ p.node.size
    → IsLeaf p
    → Comparable key p.node
    → (r : ℕ) × (find_equal n i key p ≡ ok r) × IsFirstEqual key p i r
unfolding find_equal get_key
find_equal_lem zero i key p e v c = (
  i,
  refl,
  record {
    from = omega arith;
    within = omega arith;
    before = λ j a b. absurd (omega arith);
    here = λ h. absurd (omega arith);
  },
)
find_equal_lem (suc n) i key p e v c =
    let (s, es) = compare_rows_total (p.node.slots i).key key (c i (omega arith)) in
    step s es (find_equal_lem n (i + 1) key p (omega arith) v c)
  where
    guarded : ltb i p.node.max_keys ≡ true
    guarded = lt→ltb i p.node.max_keys (omega (arith, v.within))

    next :
        (r : ℕ) → (p.node.slots i).key ≢ key → IsFirstEqual key p (i + 1) r → IsFirstEqual key p i r
    next r ne b = record {
      from = omega (arith, b.from);
      within = b.within;
      before = λ j h k. elim (dec_lt i j) [
        | yes l ↦ b.before j (omega arith) k
        | no l ↦ let q : j ≡ i = omega arith in rw q ne
      ];
      here = b.here;
    }

    step :
        (s : Sign)
        → compare_rows (p.node.slots i).key key ≡ ok s
        → (r : ℕ) × (find_equal n (i + 1) key p ≡ ok r) × IsFirstEqual key p (i + 1) r
        → (r : ℕ) × (find_equal (suc n) i key p ≡ ok r) × IsFirstEqual key p i r
    step equal es t = (
      i,
      rw guarded (rw es refl),
      record {
        from = omega arith;
        within = omega arith;
        before = λ j h k. absurd (omega arith);
        here = λ h. (compare_rows-equal _ key).0 es;
      },
    )
    step less es (r, er, b) =
        (r, rw guarded (rw es er), next r (λ q. cc (es, (compare_rows-equal _ key).1 q)) b)
    step greater es (r, er, b) =
        (r, rw guarded (rw es er), next r (λ q. cc (es, (compare_rows-equal _ key).1 q)) b)

-- The leaf without slot `index`.
abbrev pub without_entry : ℕ → Leaf → Leaf
without_entry index p = with_node p (record p.node {
  size = p.node.size - 1;
  slots = moved_down p.node.slots (p.node.size - 1 - index) index;
})

module _ (key : Row) (p : Leaf) (v : IsLeaf p) (c : Comparable key p.node) where
  pub removed_at :
      (r : ℕ)
      → find_equal p.node.size 0 key p ≡ ok r
      → r < p.node.size
      → remove key p ≡ ok (true, without_entry r p)
  unfolding remove
  removed_at r e h =
      let shrunk : (p.node.size + (2 ^ 32 - 1)) % 2 ^ 32 ≡ p.node.size - 1 =
        omega (arith, v.within, v.small) in
      let other : r == p.node.size ≡ false = ground arith in
      rw (e, other)
        (rw (shift_down_lem (p.node.size - 1 - r) r p.node (omega (arith, v.within)))
          (rw shrunk refl))

  -- In a leaf whose keys the comparator can compare with the key, `remove` either returns false
  -- and leaves the page alone, where no slot holds the key, or it returns true and takes one slot
  -- that holds the key out, and the entries behind it move down by one.
  pub remove_lem :
      ((remove key p ≡ ok (false, p)) × ((j : ℕ) → j < p.node.size → (p.node.slots j).key ≢ key))
      ⊎ ((r : ℕ) × (q : Leaf) × (remove key p ≡ ok (true, q))
          × (r < p.node.size)
          × ((p.node.slots r).key ≡ key)
          × (entries q
              ≡ range p.node.slots 0 r ++ range p.node.slots (suc r) (p.node.size - 1 - r)))
  unfolding remove
  remove_lem =
      let (r, e, b) = find_equal_lem p.node.size 0 key p (omega arith) v c in
      elim (dec_lt r p.node.size) [
        | yes h ↦ inr (
          r,
          without_entry r p,
          removed_at r e h,
          h,
          b.here h,
          range-remove p.node.slots p.node.size r h,
        )
        | no h ↦
            let same : r ≡ p.node.size = omega (arith, b.within) in
            let end : r == p.node.size ≡ true = ground arith in
            inl (rw (e, end) refl, λ j k. b.before j (omega arith) (omega arith))
      ]

  -- A slot that is left is one of the old slots, and the old slots but `r` are left.
  pub without_entry-origin :
      (r k : ℕ)
      → r < p.node.size
      → k < p.node.size - 1
      → (j : ℕ) × (j < p.node.size) × (j ≢ r) × ((without_entry r p).node.slots k ≡ p.node.slots j)
  without_entry-origin r k h l = elim (dec_lt k r) [
    | yes m ↦ (k, omega arith, (λ e. absurd (omega arith)), ground arith)
    | no m ↦ (k + 1, omega arith, (λ e. absurd (omega arith)), ground arith)
  ]

  pub without_entry-kept :
      (r j : ℕ)
      → r < p.node.size
      → j < p.node.size
      → j ≢ r
      → (k : ℕ) × (k < p.node.size - 1) × ((without_entry r p).node.slots k ≡ p.node.slots j)
  without_entry-kept r j h l ne = elim (dec_lt j r) [
    | yes m ↦ (j, omega arith, ground arith)
    | no m ↦ let back : j - 1 + 1 ≡ j = omega arith in (j - 1, omega arith, ground (arith, back))
  ]

  pub without_entry-IsSorted :
      (r : ℕ)
      → r < p.node.size
      → IsSorted p.node.slots p.node.size
      → IsSorted (without_entry r p).node.slots (p.node.size - 1)
  without_entry-IsSorted r h s i j l m = elim (dec_lt j r) [
    | yes a ↦ ground (arith, s i j l (omega arith))
    | no a ↦ elim (dec_lt i r) [
      | yes b ↦ ground (arith, s i (j + 1) (omega arith) (omega arith))
      | no b ↦ ground (arith, s (i + 1) (j + 1) (omega arith) (omega arith))
    ]
  ]
