-- ===== src/BTree/Tree/LeafLookup.antt =====
-- lib/sql/btree.cpp, the end of `BTree::lookup`: what it answers at a leaf with sorted keys.
use relvec_db.Common.{ℕ, ◌<◌, ◌≡◌, ◌≢◌, ◌⊎◌, inl, inr, sym, ◌∙◌, none, some, arith, Bool-cases}
use native.Mathlib.Decide.{dec_lt, ℕ_discrete}
use relvec_db.Common.Outcome.{ok}
use relvec_db.Row.{Row, row_eq, row_eq_iff}
use relvec_db.Comparator.{less, compare_rows}
use relvec_db.Comparator.Order.{compare_rows-equal, compare_rows_trans}
use relvec_db.BTree.Node.Search.{IsSorted, IsLowerBound, Comparable, lower_bound_from_lem}
use relvec_db.BTree.Node.Order.{less_of_greater}
use relvec_db.BTree.Leaf.{Leaf}
use relvec_db.BTree.Leaf.Insert.{IsLeaf}
use relvec_db.BTree.Tree.{leaf_lookup}

-- A sorted leaf whose keys can be compared with `key`.
pub record IsSearchable (key : Row) (p : Leaf) : Type 0 where
  pub valid : IsLeaf p
  pub sorted : IsSorted p.node.slots p.node.size
  pub comparable : Comparable key p.node

abbrev pub Absent : Row → Leaf → Type 0
Absent key p = (j : ℕ) → j < p.node.size → (p.node.slots j).key ≢ key

-- Rows that compare as less or as greater are not equal.
pub ne_of_less : (l r : Row) → compare_rows l r ≡ ok less → l ≢ r
ne_of_less l r h e = cc (h, (compare_rows-equal l r).1 e)

module _ (key : Row) (p : Leaf) (s : IsSearchable key p) where
  -- Only the slot at the lower bound can hold the key.
  Absent-but :
      (r : ℕ)
      → IsLowerBound key p.node 0 r
      → (r < p.node.size → (p.node.slots r).key ≢ key)
      → Absent key p
  Absent-but r b ne j h = elim (dec_lt j r) [
    | yes l ↦ ne_of_less _ key (b.below j (omega arith) l)
    | no l ↦ elim (ℕ_discrete j r) [
      | yes q ↦ rw q (ne (omega arith))
      | no q ↦ λ e. after (omega arith) e
    ]
  ]
    where
      after : r < j → (p.node.slots j).key ≡ key → ⊥
      after l e = elim (b.above (omega arith)) [
        | inl q ↦ ne (omega arith) ((compare_rows-equal _ key).0 q)
        | inr g ↦
            ne_of_less key _
              (compare_rows_trans key (p.node.slots r).key (p.node.slots j).key
                (less_of_greater _ key g) (s.sorted r j l h))
              (sym e)
      ]

  -- At a sorted leaf whose keys the comparator can compare with the key, `lookup` answers none and
  -- no slot holds the key, or it answers the row id of a slot that holds it.
  pub leaf_lookup_cases :
      ((leaf_lookup key p ≡ ok none) × Absent key p)
      ⊎ ((j : ℕ) × (j < p.node.size)
          × ((p.node.slots j).key ≡ key)
          × (leaf_lookup key p ≡ ok (some (p.node.slots j).value)))
  unfolding leaf_lookup
  leaf_lookup_cases =
      let (r, er, b) =
        lower_bound_from_lem p.node.size 0 key p.node (omega arith) s.valid.within s.comparable in
      elim (dec_lt r p.node.size) [
        | no h ↦ inl (ground (arith, er), Absent-but r b (λ l. absurd (h l)))
        | yes h ↦ elim (Bool-cases (row_eq (p.node.slots r).key key)) [
          | inl e ↦ inr (r, h, (row_eq_iff _ key).0 e, ground (arith, er, e, s.valid.within))
          | inr e ↦ inl (
            ground (arith, er, e, s.valid.within),
            Absent-but r b (λ l q. cc (e, (row_eq_iff _ key).1 q)),
          )
        ]
      ]

  -- A key that stands in a slot is found there.
  pub leaf_lookup_found :
      (j : ℕ)
      → j < p.node.size
      → (p.node.slots j).key ≡ key
      → leaf_lookup key p ≡ ok (some (p.node.slots j).value)
  leaf_lookup_found j h e = elim leaf_lookup_cases [
    | inl (q, a) ↦ absurd (a j h e)
    | inr (k, hk, ek, q) ↦ elim (dec_lt j k) [
      | yes l ↦ absurd (ne_of_less _ _ (s.sorted j k l hk) (e ∙ sym ek))
      | no l ↦ elim (dec_lt k j) [
        | yes m ↦ absurd (ne_of_less _ _ (s.sorted k j m h) (ek ∙ sym e))
        | no m ↦ let same : j ≡ k = omega arith in rw same q
      ]
    ]
  ]

  -- A key in no slot is not found.
  pub leaf_lookup-Absent : Absent key p → leaf_lookup key p ≡ ok none
  leaf_lookup-Absent a = elim leaf_lookup_cases [
    | inl (q, b) ↦ q
    | inr (k, hk, ek, q) ↦ absurd (a k hk ek)
  ]
