-- ===== src/BTree/Tree/Remove.antt =====
-- lib/sql/btree.cpp, `BTree::remove` of a key from a leaf that keeps other keys, and the lookups
-- after it.
use native.Mathlib.Decide.{dec_lt}
use relvec_db.Common.{
  ℕ, ◌<◌, ◌≡◌, ◌≢◌, ◌⊎◌, inl, inr, refl, sym, ap, ◌∙◌, Bool, true, false, List, [], ◌∷◌, some, none,
  arith, ◌==◌, if◌then◌else◌, Bool-cases,
}
use relvec_db.Common.Int.{eqb_ℤ-eq, eqb_ℤ_refl, ℤ, eqb_ℤ}
use relvec_db.Common.Outcome.{ok, ◌>>=◌}
use relvec_db.Row.{Row}
use relvec_db.BTree.Leaf.{Leaf}
use relvec_db.BTree.Leaf.Remove.{
  find_equal_lem, removed_at, without_entry, without_entry-origin, without_entry-kept,
  without_entry-IsSorted,
}
use relvec_db.BTree.Table.{Page, Index, set_page, get_root}
use relvec_db.BTree.Tree.{Way, remove, finish_remove, lookup, leaf_lookup, descend}
use relvec_db.BTree.Tree.LeafLookup.{
  IsSearchable, Absent, leaf_lookup_found, leaf_lookup-Absent, leaf_lookup_cases, ne_of_less,
}
use relvec_db.BTree.Tree.Descend.{descend-leaf}
use relvec_db.BTree.Tree.Written.{same_leaf, lookup-descend, lookup-set_page}

module _ (key : Row) (p : Leaf) (s : IsSearchable key p) (r : ℕ) (h : r < p.node.size)
    (e : (p.node.slots r).key ≡ key) where
  without_entry-IsSearchable : (k : Row) → IsSearchable k p → IsSearchable k (without_entry r p)
  without_entry-IsSearchable k sk = record {
    valid = record { within = omega (arith, s.valid.within); small = s.valid.small };
    sorted = without_entry-IsSorted key p s.valid s.comparable r h s.sorted;
    comparable = λ j l.
        let (i, hi, ne, o) = without_entry-origin key p s.valid s.comparable r j h l in
        rw o (sk.comparable i hi);
  }

  -- Sorted keys differ, so the key is gone.
  without_entry-Absent : Absent key (without_entry r p)
  without_entry-Absent j l q =
      let (i, hi, ne, o) = without_entry-origin key p s.valid s.comparable r j h l in
      let same : (p.node.slots i).key ≡ (p.node.slots r).key =
        sym (ap (λ x. x.key) o) ∙ q ∙ sym e in
      elim (dec_lt i r) [
        | yes m ↦ ne_of_less _ _ (s.sorted i r m h) same
        | no m ↦ ne_of_less _ _ (s.sorted r i (omega arith) hi) (sym same)
      ]

  leaf_lookup-without_entry :
      (k : Row) → IsSearchable k p → k ≢ key → leaf_lookup k (without_entry r p) ≡ leaf_lookup k p
  leaf_lookup-without_entry k sk ne =
      let sq = without_entry-IsSearchable k sk in
      elim (leaf_lookup_cases k p sk) [
        | inl (q, absent) ↦
            leaf_lookup-Absent k (without_entry r p) sq (λ j l x.
              let (i, hi, ni, o) = without_entry-origin key p s.valid s.comparable r j h l in
              absent i hi (sym (ap (λ y. y.key) o) ∙ x))
            ∙ sym q
        | inr (j, l, x, q) ↦
            let (i, hi, o) =
              without_entry-kept key p s.valid s.comparable r j h l
                (λ z. ne (sym x ∙ ap (λ y. (p.node.slots y).key) z ∙ e)) in
            leaf_lookup_found k (without_entry r p) sq i hi (ap (λ y. y.key) o ∙ x)
            ∙ ap (λ y. ok (some y.value)) o
            ∙ sym q
      ]

finish_remove-several :
    (stack : List (ℤ × ℕ)) (q : Leaf) (t : Index)
    → q.node.size == 0 ≡ false
    → finish_remove stack true q t ≡ ok (true, t)
unfolding finish_remove
finish_remove-several [] q t h = refl
finish_remove-several (above ∷ rest) q t h = rw h refl

-- The search for `key` from the root ends at a leaf that can be searched, and that holds the key
-- and another one.
pub record IsRemovable (fuel : ℕ) (key : Row) (t : Index) (root : ℤ) (w : Way) (j : ℕ)
    : Type 0 where
  pub at_root : get_root t ≡ ok root
  pub reaches : descend false fuel t key root [] ≡ ok w
  pub searchable : IsSearchable key w.2
  pub several : 1 < w.2.node.size
  pub within : j < w.2.node.size
  pub holds : (w.2.node.slots j).key ≡ key

module _ (fuel : ℕ) (key : Row) (t : Index) (root : ℤ) (w : Way) (j : ℕ)
    (h : IsRemovable fuel key t root w j) where
  -- A removal writes the leaf without the entry, and nothing else.
  remove-without_entry :
      (r : ℕ) × (r < w.2.node.size)
      × ((w.2.node.slots r).key ≡ key)
      × (remove fuel key t ≡ ok (true, set_page w.1 (Page.leaf (without_entry r w.2)) t))
  unfolding remove
  remove-without_entry =
      let (r, e, b) =
        find_equal_lem w.2.node.size 0 key w.2 (omega arith) h.searchable.valid
          h.searchable.comparable in
      elim (dec_lt r w.2.node.size) [
        | no n ↦ absurd (b.before j (omega arith) (omega (arith, b.within, h.within)) h.holds)
        | yes l ↦
            let gone = removed_at key w.2 h.searchable.valid h.searchable.comparable r e l in
            (
              r,
              l,
              b.here l,
              rw (h.at_root, h.reaches)
                  (rw gone (finish_remove-several w.0 _ _ (ground (arith, h.several)))),
            )
      ]

  -- Where the search for a key ends at a sorted leaf that holds the key and at least one other,
  -- and whose keys the comparator can compare with the key, `remove` returns true, and `lookup` of
  -- the key in the new index finds nothing.
  pub lookup-remove :
      (t' : Index) × (remove fuel key t ≡ ok (true, t')) × (lookup fuel key t' ≡ ok none)
  lookup-remove =
      let (r, l, e, done) = remove-without_entry in
      let q = without_entry r w.2 in
      let at = descend-leaf false t key fuel root [] w h.reaches in
      let seen = lookup-set_page fuel key t root w.1 w.2 q w h.at_root at h.reaches in
      let sq = without_entry-IsSearchable key w.2 h.searchable r l e key h.searchable in
      let absent = leaf_lookup-Absent key q sq (without_entry-Absent key w.2 h.searchable r l e) in
      (set_page w.1 (Page.leaf q) t, done, seen ∙ rw (eqb_ℤ_refl w.1) absent)

  -- Where the search for a key ends at a sorted leaf that holds the key and at least one other,
  -- and whose keys the comparator can compare with the key, the lookup of another key answers
  -- after `remove` what it answered before. The search for the other key has to reach a sorted
  -- leaf whose keys can be compared with it.
  pub lookup-remove_other :
      (k : Row) (v : Way) (b : Bool) (t' : Index)
      → descend false fuel t k root [] ≡ ok v
      → IsSearchable k v.2
      → k ≢ key
      → remove fuel key t ≡ ok (b, t')
      → lookup fuel k t' ≡ lookup fuel k t
  lookup-remove_other k v b t' reaches s ne done =
      let (r, l, e, done') = remove-without_entry in
      let at = descend-leaf false t key fuel root [] w h.reaches in
      let same : ok (b, t') ≡ ok (true, set_page w.1 (Page.leaf (without_entry r w.2)) t) =
        sym done ∙ done' in
      ap (λ o. o >>= λ x. lookup fuel k x.1) same
      ∙ lookup-set_page fuel k t root w.1 w.2 (without_entry r w.2) v h.at_root at reaches
      ∙ at_leaf_of r l e (Bool-cases (eqb_ℤ v.1 w.1))
      ∙ sym (lookup-descend fuel k t root v h.at_root reaches)
    where
      at_leaf_of :
          (r : ℕ)
          → r < w.2.node.size
          → (w.2.node.slots r).key ≡ key
          → (eqb_ℤ v.1 w.1 ≡ true) ⊎ (eqb_ℤ v.1 w.1 ≡ false)
          → leaf_lookup k (if eqb_ℤ v.1 w.1 then without_entry r w.2 else v.2) ≡ leaf_lookup k v.2
      at_leaf_of r l e (inr f) = rw f refl
      at_leaf_of r l e (inl f) =
          let same =
            same_leaf t v.1 w.1 v.2 w.2 (eqb_ℤ-eq v.1 w.1 f)
              (descend-leaf false t k fuel root [] v reaches)
              (descend-leaf false t key fuel root [] w h.reaches) in
          rw (f, same) (leaf_lookup-without_entry key w.2 h.searchable r l e k (rw (sym same) s) ne)
