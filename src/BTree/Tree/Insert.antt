-- ===== src/BTree/Tree/Insert.antt =====
-- lib/sql/btree.cpp, `BTree::insert` into a leaf with room, and the lookups after it.
use relvec_db.Common.{
  ℕ, zero, suc, ◌+◌, ◌-◌, ◌<◌, ◌≡◌, ◌≢◌, refl, sym, ap, ◌∙◌, true, false, List, [], ◌∷◌, some,
  arith, if◌then◌else◌, Bool-cases, inl, inr, ◌⊎◌,
}
use native.Mathlib.Decide.{dec_lt, ℕ_discrete}
use relvec_db.Common.Int.{eqb_ℤ-eq, eqb_ℤ_refl, ℤ, eqb_ℤ}
use relvec_db.Common.Outcome.{ok, ◌>>=◌, >>=-eq-ok}
use relvec_db.Row.{Row, RowId}
use relvec_db.Comparator.Order.{SameShape, compare_rows-equal}
use relvec_db.BTree.Node.Keys.{IsKey}
use relvec_db.BTree.Node.Entries.{inserted}
use relvec_db.BTree.Node.Search.{IsLowerBound, Comparable, lower_bound_from_lem}
use relvec_db.BTree.Node.Order.{inserted-IsSorted, inserted_below, inserted_here, inserted_above}
use relvec_db.BTree.Leaf
use relvec_db.BTree.Leaf.{Leaf, with_node}
use relvec_db.BTree.Leaf.Insert.{insert_entry-inserted}
use relvec_db.BTree.Table.{Page, Index, get_page, set_page, get_root}
use relvec_db.BTree.Tree.{Way, insert, lookup, leaf_lookup, descend, descend_page}
use relvec_db.BTree.Tree.LeafLookup.{
  IsSearchable, Absent, leaf_lookup_found, leaf_lookup-Absent, leaf_lookup_cases,
}
use relvec_db.BTree.Tree.Written.{same_leaf, lookup-descend, lookup-set_page}
use relvec_db.BTree.Tree.Descend.{Round, through, down, at_leaf, Round-of, descend-leaf}

-- The leaf with the new entry at `index`.
abbrev pub with_entry : Row → RowId → ℕ → Leaf → Leaf
with_entry key value index p = with_node p (record p.node {
  size = p.node.size + 1;
  slots = inserted p.node.slots p.node.size index (record { key = key; value = value });
})

module _ (key : Row) (value : RowId) (index : ℕ) (p : Leaf)
    (b : IsLowerBound key p.node 0 index) where
  -- The slot of the new leaf that holds an entry of the old one.
  kept :
      (j : ℕ)
      → j < p.node.size
      → (k : ℕ) × (k < p.node.size + 1)
        × ((with_entry key value index p).node.slots k ≡ p.node.slots j)
  kept j h = elim (dec_lt j index) [
    | yes l ↦ (j, omega arith, inserted_below p.node key value index j l)
    | no l ↦
        let back : j + 1 - 1 ≡ j = omega arith in
        (
          j + 1,
          omega arith,
          inserted_above p.node key value index (j + 1) (omega arith) (omega arith) b.within
              ∙ ap p.node.slots back,
        )
  ]

  -- The old entry of a slot of the new leaf, or the new one.
  origin :
      (k : ℕ)
      → k < p.node.size + 1
      → ((with_entry key value index p).node.slots k ≡ record { key = key; value = value })
        ⊎ ((j : ℕ) × (j < p.node.size)
            × ((with_entry key value index p).node.slots k ≡ p.node.slots j))
  origin k h = elim (dec_lt k index) [
    | yes l ↦ inr (k, omega (arith, b.within), inserted_below p.node key value index k l)
    | no l ↦ elim (ℕ_discrete k index) [
      | yes q ↦ inl (rw q (inserted_here p.node key value index))
      | no q ↦
          inr (k - 1, omega arith, inserted_above p.node key value index k (omega arith) h b.within)
    ]
  ]

  module _ (s : IsSearchable key p) (a : Absent key p) (room : p.node.size < p.node.max_keys) where
    -- The new leaf can be searched for every key that the old one can be searched for.
    with_entry-IsSearchable :
        (k : Row)
        → SameShape key k
        → Comparable k p.node
        → IsSearchable k (with_entry key value index p)
    with_entry-IsSearchable k shape c = record {
      valid = record { within = omega arith; small = s.valid.small };
      sorted =
          inserted-IsSorted p.node key value index s.sorted b
            (λ h e. a index h ((compare_rows-equal _ key).0 e));
      comparable = λ j h. elim (origin j h) [ inl e ↦ rw e shape | inr (i, hi, e) ↦ rw e (c i hi) ];
    }

    leaf_lookup-with_entry :
        SameShape key key → leaf_lookup key (with_entry key value index p) ≡ ok (some value)
    leaf_lookup-with_entry shape =
        let here = inserted_here p.node key value index in
        let found =
          leaf_lookup_found key (with_entry key value index p)
            (with_entry-IsSearchable key shape s.comparable) index (omega (arith, b.within))
            (ap (λ e. e.key) here) in
        found ∙ ap (λ e. ok (some e.value)) here

    leaf_lookup-with_entry_other :
        (k : Row)
        → SameShape key k
        → IsSearchable k p
        → k ≢ key
        → leaf_lookup k (with_entry key value index p) ≡ leaf_lookup k p
    leaf_lookup-with_entry_other k shape sk ne =
        let sq = with_entry-IsSearchable k shape sk.comparable in
        elim (leaf_lookup_cases k p sk) [
          | inl (q, absent) ↦
              leaf_lookup-Absent k (with_entry key value index p) sq (λ j h e. elim (origin j h) [
                | inl o ↦ ne (sym e ∙ ap (λ e. e.key) o)
                | inr (i, hi, o) ↦ absent i hi (sym (ap (λ e. e.key) o) ∙ e)
              ])
              ∙ sym q
          | inr (j, h, e, q) ↦
              let (i, hi, o) = kept j h in
              leaf_lookup_found k (with_entry key value index p) sq i hi (ap (λ e. e.key) o ∙ e)
              ∙ ap (λ e. ok (some e.value)) o
              ∙ sym q
        ]

-- The search of `lookup` goes where the search of `insert` went.
descend-throws :
    (t : Index) (key : Row) (fuel : ℕ) (j : ℤ) (stack : List (ℤ × ℕ)) (w : Way)
    → descend true fuel t key j stack ≡ ok w
    → descend false fuel t key j stack ≡ ok w
unfolding descend descend_page
descend-throws t key zero j stack w e = cc
descend-throws t key (suc fuel) j stack w e =
    let (x, ex, er) = >>=-eq-ok (get_page t j) _ e in
    rw ex (step x (Round-of true _ key j stack w x er) (descend-throws t key fuel))
  where
    step :
        (x : Page)
        → Round true (descend true fuel t key) key j stack w x
        → ((j : ℤ) (stack : List (ℤ × ℕ)) (w : Way)
            → descend true fuel t key j stack ≡ ok w
            → descend false fuel t key j stack ≡ ok w)
        → descend_page false (descend false fuel t key) key j stack x ≡ ok w
    step Page.invalid r ih = elim r [ ]
    step (Page.metadata m) (through m' e) ih = ih m'.root stack w e
    step (Page.internal n) (down n' slot child ec e) ih = rw ec (ih child ((j, slot) ∷ stack) w e)
    step (Page.leaf p) (at_leaf p' e) ih = cc

-- The search for `key` from the root ends at a leaf that can be searched, lacks the key and has room.
pub record IsRoom (fuel : ℕ) (key : Row) (t : Index) (root : ℤ) (w : Way) : Type 0 where
  pub at_root : get_root t ≡ ok root
  pub reaches : descend true fuel t key root [] ≡ ok w
  pub searchable : IsSearchable key w.2
  pub absent : Absent key w.2
  pub fits : IsKey w.2.node.key_schema key
  pub room : w.2.node.size < w.2.node.max_keys

module _ (fuel : ℕ) (key : Row) (value : RowId) (t : Index) (root : ℤ) (w : Way)
    (h : IsRoom fuel key t root w) where
  -- An insertion writes the leaf with the new entry, and nothing else.
  insert_lem :
      (index : ℕ) × IsLowerBound key w.2.node 0 index
      × (insert fuel key value t ≡ ok (set_page w.1 (Page.leaf (with_entry key value index w.2)) t))
  unfolding insert Leaf.lower_bound
  insert_lem =
      let (index, ei, b) =
        lower_bound_from_lem w.2.node.size 0 key w.2.node (omega arith) h.searchable.valid.within
          h.searchable.comparable in
      let done =
        insert_entry-inserted index key value w.2 h.searchable.valid h.room b.within h.fits in
      (index, b, rw (h.at_root, h.reaches) (rw ei (rw done refl)))

  -- Where the search for a key ends at a sorted leaf whose keys the comparator can compare with
  -- the key, which lacks the key and has room, and the key fits the schema of keys, which has no
  -- string column and is that of a marshal (fewer than 64 values, no zero byte in a varchar),
  -- `insert` returns, and `lookup` of the key in the new index returns the inserted row id.
  pub lookup-insert :
      SameShape key key
      → (t' : Index) × (insert fuel key value t ≡ ok t') × (lookup fuel key t' ≡ ok (some value))
  lookup-insert shape =
      let (index, b, e) = insert_lem in
      let q = with_entry key value index w.2 in
      let seen =
        lookup-set_page fuel key t root w.1 w.2 q w h.at_root
          (descend-leaf true t key fuel root [] w h.reaches)
          (descend-throws t key fuel root [] w h.reaches) in
      let found = leaf_lookup-with_entry key value index w.2 b h.searchable h.absent h.room shape in
      (set_page w.1 (Page.leaf q) t, e, seen ∙ rw (eqb_ℤ_refl w.1) found)

  -- Where the search for a key ends at a sorted leaf whose keys the comparator can compare with
  -- the key, which lacks the key and has room, and the key fits the schema of keys, which has no
  -- string column and is that of a marshal (fewer than 64 values, no zero byte in a varchar), the
  -- lookup of another key answers after `insert` what it answered before. The search for the other
  -- key has to reach a sorted leaf whose keys can be compared with it, and the two keys have to be
  -- of one shape.
  pub lookup-insert_other :
      (k : Row) (v : Way) (t' : Index)
      → descend false fuel t k root [] ≡ ok v
      → SameShape key k
      → IsSearchable k v.2
      → k ≢ key
      → insert fuel key value t ≡ ok t'
      → lookup fuel k t' ≡ lookup fuel k t
  lookup-insert_other k v t' reaches shape s ne done =
      let (index, b, e) = insert_lem in
      let q = with_entry key value index w.2 in
      let same : ok t' ≡ ok (set_page w.1 (Page.leaf q) t) = sym done ∙ e in
      ap (λ o. o >>= lookup fuel k) same
      ∙ lookup-set_page fuel k t root w.1 w.2 q v h.at_root
          (descend-leaf true t key fuel root [] w h.reaches) reaches
      ∙ at_leaf_of index b (Bool-cases (eqb_ℤ v.1 w.1))
      ∙ sym (lookup-descend fuel k t root v h.at_root reaches)
    where
      at_leaf_of :
          (index : ℕ)
          → IsLowerBound key w.2.node 0 index
          → (eqb_ℤ v.1 w.1 ≡ true) ⊎ (eqb_ℤ v.1 w.1 ≡ false)
          → leaf_lookup k (if eqb_ℤ v.1 w.1 then with_entry key value index w.2 else v.2)
            ≡ leaf_lookup k v.2
      at_leaf_of index b (inr f) = rw f refl
      at_leaf_of index b (inl f) =
          let same =
            same_leaf t v.1 w.1 v.2 w.2 (eqb_ℤ-eq v.1 w.1 f)
              (descend-leaf false t k fuel root [] v reaches)
              (descend-leaf true t key fuel root [] w h.reaches) in
          rw (f, same)
            (leaf_lookup-with_entry_other key value index w.2 b h.searchable h.absent h.room k shape
              (rw (sym same) s) ne)
