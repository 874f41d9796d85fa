-- ===== src/BTree/Node/Entries.antt =====
-- lib/sql/btree_page.h: the slots of a page as a list, and what the shifting loops do to them.
use mathlib.Core.Path.{ap₂, fun_ext}
use relvec_db.Common.{
  ◌^◌, ◌%◌, lt→ltb, leb, ◌&&◌, ℕ, zero, suc, ◌+◌, ◌-◌, ◌<◌, ◌≤◌, ◌≡◌, refl, ap, ◌∙◌, ◌∷◌, ◌++◌,
  arith, ltb, ◌==◌, if◌then◌else◌,
}
use relvec_db.Common.Ranges.{range, range_split, range_ext}
use relvec_db.Common.Outcome.{Outcome, ok}
use relvec_db.Row.{Row}
use relvec_db.BTree.Node.Keys.{IsKey, stored_key_lem}
use relvec_db.BTree.Node.{update, Entry, Node, shift_up, shift_down, copy_slot, insert_at}

module _ {V : Type 0} where
  -- Pages that differ at most in slots that are equal.
  pub same_slots :
      (p : Node V) (f g : ℕ → Entry V)
      → ((j : ℕ) → f j ≡ g j)
      → ◌≡◌ {A = Outcome (Node V)} (ok (record p { slots = f })) (ok (record p { slots = g }))
  same_slots p f g h = ap (λ t. ok (record p { slots = t })) (fun_ext h)

  pub copy_slot_lem :
      (i j : ℕ) (p : Node V)
      → i < p.max_keys
      → j < p.max_keys
      → copy_slot i j p ≡ ok (record p { slots = update p.slots i (p.slots j) })
  unfolding copy_slot
  copy_slot_lem i j p hi hj =
      let a = lt→ltb i p.max_keys hi in
      let b = lt→ltb j p.max_keys hj in
      rw b (rw a (rw b (rw a (same_slots p _ _ (λ k. ground arith)))))

  -- The array after `shift_up n index`, and after `shift_down n index`.
  abbrev pub moved_up : (ℕ → Entry V) → ℕ → ℕ → ℕ → Entry V
  moved_up f n index j = if ltb index j && leb j (index + n) then f (j - 1) else f j

  abbrev pub moved_down : (ℕ → Entry V) → ℕ → ℕ → ℕ → Entry V
  moved_down f n index j = if leb index j && ltb j (index + n) then f (j + 1) else f j

  pub shift_up_lem :
      (n index : ℕ) (p : Node V)
      → index + n < p.max_keys
      → shift_up n index p ≡ ok (record p { slots = moved_up p.slots n index })
  unfolding shift_up
  shift_up_lem zero index p h = same_slots p _ _ (λ j. ground arith)
  shift_up_lem (suc n) index p h =
      rw (copy_slot_lem (index + suc n) (index + n) p h (omega arith)) (
        shift_up_lem n index
          (record p { slots = update p.slots (index + suc n) (p.slots (index + n)) }) (omega arith)
        ∙ same_slots p _ _ (λ j. ground arith))

  pub shift_down_lem :
      (n i : ℕ) (p : Node V)
      → i + n < p.max_keys
      → shift_down n i p ≡ ok (record p { slots = moved_down p.slots n i })
  unfolding shift_down
  shift_down_lem zero i p h = same_slots p _ _ (λ j. ground arith)
  shift_down_lem (suc n) i p h = rw (copy_slot_lem i (i + 1) p (omega arith) (omega arith)) (
      shift_down_lem n (i + 1) (record p { slots = update p.slots i (p.slots (i + 1)) })
        (omega arith)
      ∙ same_slots p _ _ (λ j. ground arith))

  -- The list of slots after an insertion: the slots from `index` on moved up, and the new one.
  pub range-insert :
      (f g : ℕ → Entry V) (n index : ℕ)
      → index ≤ n
      → ((j : ℕ) → g j ≡ (if j == index then g index else moved_up f (n - index) index j))
      → range g 0 (n + 1) ≡ range f 0 index ++ (g index ∷ range f index (n - index))
  unfolding range
  range-insert f g n index h e =
      let split : n + 1 ≡ index + suc (n - index) = omega arith in
      let at_index : 0 + index ≡ index = omega arith in
      rw (split, range_split g 0 index (suc (n - index)), at_index)
        (ap₂ ◌++◌ (range_ext g f 0 0 index (λ j l. ground (arith, e (0 + j))))
          (ap₂ ◌∷◌ refl (range_ext g f (suc index) index (n - index) (λ j l. after j l))))
    where
      after : (j : ℕ) → j < n - index → g (suc index + j) ≡ f (index + j)
      after j l =
          let k : suc index + j - 1 ≡ index + j = omega arith in
          ground (arith, e (suc index + j), k)

  -- The list of slots after a removal.
  pub range-remove :
      (f : ℕ → Entry V) (n i : ℕ)
      → i < n
      → range (moved_down f (n - 1 - i) i) 0 (n - 1) ≡ range f 0 i ++ range f (suc i) (n - 1 - i)
  range-remove f n i h =
      let split : n - 1 ≡ i + (n - 1 - i) = omega arith in
      let at_index : 0 + i ≡ i = omega arith in
      let g = moved_down f (n - 1 - i) i in
      ap (λ k. range g 0 k) split
      ∙ range_split g 0 i (n - 1 - i)
      ∙ ap₂ ◌++◌ (range_ext g f 0 0 i (λ j l. ground arith))
          (range_ext g f (0 + i) (suc i) (n - 1 - i) (λ j l. after j l))
    where
      after : (j : ℕ) → j < n - 1 - i → moved_down f (n - 1 - i) i (0 + i + j) ≡ f (suc i + j)
      after j l = let k : 0 + i + j + 1 ≡ suc i + j = omega arith in ground (arith, k)

  -- The array after `insert_at` into a page with `n` slots in use.
  abbrev pub inserted : (ℕ → Entry V) → ℕ → ℕ → Entry V → ℕ → Entry V
  inserted f n index e j = if j == index then e else moved_up f (n - index) index j

  -- With room, `insert_at` succeeds, and the list of slots gets the entry at `index`.
  pub insert_at_lem :
      (index : ℕ) (key : Row) (value : V) (p : Node V)
      → p.size < p.max_keys
      → p.max_keys < 2 ^ 32
      → index ≤ p.size
      → IsKey p.key_schema key
      → insert_at index key value p
        ≡ ok (record p {
          size = p.size + 1;
          slots = inserted p.slots p.size index (record { key = key; value = value });
        })
  unfolding insert_at
  insert_at_lem index key value p room small h k =
      let grown : (p.size + 1) % 2 ^ 32 ≡ p.size + 1 = omega arith in
      let rounds : p.size + 1 - 1 - index ≡ p.size - index = omega arith in
      let fits = lt→ltb index p.max_keys (omega arith) in
      rw (grown, rounds)
        (rw (shift_up_lem (p.size - index) index (record p { size = p.size + 1 }) (omega arith)) (
          rw (fits, fits)
            (rw (stored_key_lem p.key_schema key k)
              (same_slots (record p { size = p.size + 1 }) _ _ (λ j. ground arith)))))

  pub range-inserted :
      (f : ℕ → Entry V) (n index : ℕ) (e : Entry V)
      → index ≤ n
      → range (inserted f n index e) 0 (n + 1) ≡ range f 0 index ++ (e ∷ range f index (n - index))
  range-inserted f n index e h =
      let here : inserted f n index e index ≡ e = ground arith in
      range-insert f (inserted f n index e) n index h (λ j. ground (arith, here))
      ∙ ap (λ t. range f 0 index ++ (t ∷ range f index (n - index))) here
