-- ===== src/BTree/Tree/Linear.antt =====
-- lib/sql/btree_page.h, `BTreeLeafPage::lookup`, which goes through all slots, against the search at
-- the end of `BTree::lookup` of lib/sql/btree.cpp.
use native.Mathlib.Decide.{dec_lt}
use relvec_db.Common.{
  ℕ, zero, suc, ◌+◌, ◌<◌, ◌≤◌, ◌≡◌, ◌≢◌, ◌⊎◌, inl, inr, refl, sym, ◌∙◌, none, some, arith, lt→ltb,
  Bool-cases,
}
use relvec_db.Common.Outcome.{ok}
use relvec_db.Row.{Row, row_eq, row_eq_iff}
use relvec_db.BTree.Leaf
use relvec_db.BTree.Leaf.{Leaf, lookup_from}
use relvec_db.BTree.Tree.{leaf_lookup}
use relvec_db.BTree.Tree.LeafLookup.{IsSearchable, leaf_lookup_found, leaf_lookup-Absent}

-- What the loop of `lookup` answers from slot `i` on.
lookup_from_cases :
    (n i : ℕ) (key : Row) (p : Leaf)
    → i + n ≡ p.node.size
    → p.node.size ≤ p.node.max_keys
    → ((lookup_from n i key p ≡ ok none)
        × ((j : ℕ) → i ≤ j → j < p.node.size → (p.node.slots j).key ≢ key))
      ⊎ ((j : ℕ) × (j < p.node.size)
          × ((p.node.slots j).key ≡ key)
          × (lookup_from n i key p ≡ ok (some (p.node.slots j).value)))
unfolding lookup_from
lookup_from_cases zero i key p e w = inl (refl, λ j a b. absurd (omega arith))
lookup_from_cases (suc n) i key p e w =
    let slot = lt→ltb i p.node.max_keys (omega arith) in
    elim (Bool-cases (row_eq (p.node.slots i).key key)) [
      | inl q ↦ inr (i, omega arith, (row_eq_iff _ key).0 q, rw slot (rw q refl))
      | inr q ↦ elim (lookup_from_cases n (i + 1) key p (omega arith) w) [
        | inl (r, absent) ↦ inl (
          rw slot (rw q r),
          λ j a b. elim (dec_lt i j) [
            | yes l ↦ absent j (omega arith) b
            | no l ↦ let same : j ≡ i = omega arith in rw same (λ k. cc (q, (row_eq_iff _ key).1 k))
          ],
        )
        | inr (j, h, k, r) ↦ inr (j, h, k, rw slot (rw q r))
      ]
    ]

-- At a sorted leaf whose keys the comparator can compare with the key, the search at the end of
-- `BTree::lookup`, by the lower bound, answers what `lookup` of the leaf answers, which compares
-- the slots one after the other for equality.
pub leaf_lookup-lookup :
    (key : Row) (p : Leaf) → IsSearchable key p → leaf_lookup key p ≡ Leaf.lookup key p
unfolding Leaf.lookup
leaf_lookup-lookup key p s =
    elim (lookup_from_cases p.node.size 0 key p (omega arith) s.valid.within) [
      | inl (r, absent) ↦ leaf_lookup-Absent key p s (λ j h. absent j (omega arith) h) ∙ sym r
      | inr (j, h, k, r) ↦ leaf_lookup_found key p s j h k ∙ sym r
    ]
