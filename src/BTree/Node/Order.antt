-- ===== src/BTree/Node/Order.antt =====
-- lib/sql/btree_page.h: an entry put at the lower bound of its key keeps the keys sorted.
use relvec_db.Common.{ℕ, ◌+◌, ◌-◌, ◌<◌, ◌≤◌, ◌≡◌, ◌≢◌, inl, inr, ap, ◌∙◌, arith}
use native.Mathlib.Decide.{dec_lt, ℕ_discrete}
use relvec_db.Common.Outcome.{ok}
use relvec_db.Row.{Row}
use relvec_db.Comparator.{less, equal, greater, compare_rows}
use relvec_db.Comparator.Order.{compare_rows-flip, compare_rows_trans, flip_outcome}
use relvec_db.BTree.Node.{Entry, Node}
use relvec_db.BTree.Node.Entries.{inserted}
use relvec_db.BTree.Node.Search.{IsSorted, IsLowerBound}

pub less_of_greater : (l r : Row) → compare_rows l r ≡ ok greater → compare_rows r l ≡ ok less
less_of_greater l r h = compare_rows-flip l r ∙ ap flip_outcome h

module _ {V : Type 0} (p : Node V) (key : Row) (value : V) (index : ℕ) where
  abbrev new_entry : Entry V
  new_entry = record { key = key; value = value }

  -- The keys from the lower bound on are greater, unless the key is there already.
  above_all :
      IsSorted p.slots p.size
      → IsLowerBound key p 0 index
      → (index < p.size → compare_rows (p.slots index).key key ≢ ok equal)
      → (j : ℕ) → index ≤ j
      → j < p.size
      → compare_rows key (p.slots j).key ≡ ok less
  above_all s b ne j h k = elim (b.above (omega arith)) [
    | inl e ↦ absurd (ne (omega arith) e)
    | inr g ↦
        let first = less_of_greater (p.slots index).key key g in
        elim (dec_lt index j) [
          | yes l ↦ compare_rows_trans key (p.slots index).key (p.slots j).key first (s index j l k)
          | no l ↦ let q : j ≡ index = omega arith in rw q first
        ]
  ]

  pub inserted_below : (j : ℕ) → j < index → inserted p.slots p.size index new_entry j ≡ p.slots j
  inserted_below j h = ground arith

  pub inserted_here : inserted p.slots p.size index new_entry index ≡ new_entry
  inserted_here = ground arith

  pub inserted_above :
      (j : ℕ)
      → index < j
      → j < p.size + 1
      → index ≤ p.size
      → inserted p.slots p.size index new_entry j ≡ p.slots (j - 1)
  inserted_above j h k w = ground arith

  -- Putting an absent key at its lower bound keeps the keys sorted.
  pub inserted-IsSorted :
      IsSorted p.slots p.size
      → IsLowerBound key p 0 index
      → (index < p.size → compare_rows (p.slots index).key key ≢ ok equal)
      → IsSorted (inserted p.slots p.size index new_entry) (p.size + 1)
  inserted-IsSorted s b ne i j h k = elim (dec_lt j index) [
    | yes l ↦
        rw (inserted_below i (omega arith), inserted_below j l) (s i j h (omega (arith, b.within)))
    | no l ↦ elim (ℕ_discrete j index) [
      | yes q ↦
          rw (q, inserted_here, inserted_below i (omega arith))
            (b.below i (omega arith) (omega arith))
      | no q ↦ rw (inserted_above j (omega arith) k b.within) (elim (dec_lt i index) [
        | yes m ↦ rw (inserted_below i m) (
            compare_rows_trans _ key _ (b.below i (omega arith) m)
              (above_all s b ne (j - 1) (omega arith) (omega arith)))
        | no m ↦ elim (ℕ_discrete i index) [
          | yes r ↦ rw (r, inserted_here) (above_all s b ne (j - 1) (omega arith) (omega arith))
          | no r ↦
              rw (inserted_above i (omega arith) (omega arith) b.within)
                (s (i - 1) (j - 1) (omega arith) (omega arith))
        ]
      ])
    ]
  ]
