-- ===== src/BTree/Node/Search.antt =====
-- lib/sql/btree_page.h, `lowerBound`: where a key belongs among sorted keys.
use native.Mathlib.Decide.{dec_lt}
use relvec_db.Common.{
  ℕ, zero, suc, ◌+◌, ◌<◌, ◌≤◌, ◌≡◌, ◌⊎◌, inl, inr, refl, true, arith, lt→ltb, ltb,
}
use relvec_db.Common.Outcome.{ok}
use relvec_db.Row.{Row}
use relvec_db.Comparator.{Sign, less, equal, greater, compare_rows}
use relvec_db.Comparator.Order.{SameShape, compare_rows_total}
use relvec_db.BTree.Node.{Entry, Node, lower_bound_from}

module _ {V : Type 0} where
  -- Keys that the comparator can compare with `key`, in the slots in use.
  abbrev pub Comparable : Row → Node V → Type 0
  Comparable key p = (j : ℕ) → j < p.size → SameShape (p.slots j).key key

  -- Keys in strictly increasing order.
  abbrev pub IsSorted : (ℕ → Entry V) → ℕ → Type 0
  IsSorted f n = (i j : ℕ) → i < j → j < n → compare_rows (f i).key (f j).key ≡ ok less

  -- What `lowerBound` promises, from slot `i` on.
  pub record IsLowerBound (key : Row) (p : Node V) (i r : ℕ) : Type 0 where
    pub from : i ≤ r
    pub within : r ≤ p.size
    pub below : (j : ℕ) → i ≤ j → j < r → compare_rows (p.slots j).key key ≡ ok less
    pub above :
        r < p.size
        → (compare_rows (p.slots r).key key ≡ ok equal)
          ⊎ (compare_rows (p.slots r).key key ≡ ok greater)

  -- In a page whose slots lie within it and whose keys the comparator can compare with the key,
  -- the search of `lowerBound` from slot `i` returns a slot up to the size, all keys before it are
  -- less than the key, and the key at it is equal or greater.
  pub lower_bound_from_lem :
      (n i : ℕ) (key : Row) (p : Node V)
      → i + n ≡ p.size
      → p.size ≤ p.max_keys
      → Comparable key p
      → (r : ℕ) × (lower_bound_from n i key p ≡ ok r) × IsLowerBound key p i r
  unfolding lower_bound_from
  lower_bound_from_lem zero i key p e w c = (
    p.size,
    refl,
    record {
      from = omega arith;
      within = omega arith;
      below = λ j a b. absurd (omega arith);
      above = λ a. absurd (omega arith);
    },
  )
  lower_bound_from_lem (suc n) i key p e w c =
      let (s, es) = compare_rows_total (p.slots i).key key (c i (omega arith)) in
      step s es (lower_bound_from_lem n (i + 1) key p (omega arith) w c)
    where
      guarded : ltb i p.max_keys ≡ true
      guarded = lt→ltb i p.max_keys (omega arith)

      step :
          (s : Sign)
          → compare_rows (p.slots i).key key ≡ ok s
          → (r : ℕ) × (lower_bound_from n (i + 1) key p ≡ ok r) × IsLowerBound key p (i + 1) r
          → (r : ℕ) × (lower_bound_from (suc n) i key p ≡ ok r) × IsLowerBound key p i r
      step less es (r, er, b) = (
        r,
        rw guarded (rw es er),
        record {
          from = omega (arith, b.from);
          within = b.within;
          below = λ j h k. elim (dec_lt i j) [
            | yes l ↦ b.below j (omega arith) k
            | no l ↦ let q : j ≡ i = omega arith in rw q es
          ];
          above = b.above;
        },
      )
      step equal es t = (
        i,
        rw guarded (rw es),
        record {
          from = omega arith;
          within = omega arith;
          below = λ j h k. absurd (omega arith);
          above = λ h. inl es;
        },
      )
      step greater es t = (
        i,
        rw guarded (rw es),
        record {
          from = omega arith;
          within = omega arith;
          below = λ j h k. absurd (omega arith);
          above = λ h. inr es;
        },
      )
