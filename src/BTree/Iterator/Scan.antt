-- ===== src/BTree/Iterator/Scan.antt =====
-- lib/sql/btree.cpp: what a scan without conditions returns along a chain of leaves.
use relvec_db.Common.{
  ℕ, zero, suc, ◌+◌, ◌<◌, ◌≤◌, ◌≡◌, refl, ap, true, false, List, [], ◌∷◌, ◌++◌, none, some, arith,
  length, ltb, leb, lt→ltb,
}
use relvec_db.Common.Int.{eqb_ℤ}
use relvec_db.Common.Ranges.{range}
use relvec_db.Common.Outcome.{Outcome, ok, fail, no_fuel, ◌>>=◌}
use relvec_db.Row.{Row, RowId}
use relvec_db.BTree.Node.{get_key, get_value}
use relvec_db.BTree.Leaf.{Leaf, invalid_page_index}
use relvec_db.BTree.Table.{Index, get_leaf}
use relvec_db.BTree.Conditions.{is_row_valid}
use relvec_db.BTree.Iterator.{IndexIterator, advance, next_row}

-- The keys and row ids of `n` slots of a leaf.
abbrev pub rows_from : Leaf → ℕ → ℕ → List (Row × RowId)
rows_from p i n = range (λ j. ((p.node.slots j).key, (p.node.slots j).value)) i n

-- Calls of `nextRow` until it returns none, `n` at most.
unfoldable pub collect : ℕ → Index → IndexIterator → Outcome (List (Row × RowId))
unfolding next_row
collect zero t it = fail no_fuel
collect (suc n) t it = do
  (row, it') ← next_row 1 t it
  let rest = collect n t it'
  elim row [ none ↦ ok [] | some x ↦ rest >>= λ xs. ok (x ∷ xs) ]

-- The iterator at a slot, without conditions.
abbrev pub at_slot : Leaf → ℕ → IndexIterator
at_slot p i = record { leaf_page = p; leaf_page_offset = i; predicates = []; is_end = false }

-- The rest of the scan: the leaves that follow `p`, none of them empty, and their rows.
pub data Chain (t : Index) : Leaf → List (Row × RowId) → Type 0 where
  last : {p : Leaf} → eqb_ℤ p.next invalid_page_index ≡ true → Chain t p []
  link :
      {p : Leaf} (q : Leaf) {rest : List (Row × RowId)}
      → eqb_ℤ p.next invalid_page_index ≡ false
      → get_leaf t p.next ≡ ok q
      → 0 < q.node.size
      → q.node.size ≤ q.node.max_keys
      → Chain t q rest
      → Chain t p (rows_from q 0 q.node.size ++ rest)

-- One call of `nextRow` in the middle of a leaf.
collect_step :
    (t : Index) (p : Leaf) (i m : ℕ) (it : IndexIterator) (rest : List (Row × RowId))
    → i < p.node.size
    → p.node.size ≤ p.node.max_keys
    → advance t (at_slot p i) ≡ ok it
    → collect m t it ≡ ok rest
    → collect (suc m) t (at_slot p i) ≡ ok (((p.node.slots i).key, (p.node.slots i).value) ∷ rest)
unfolding collect next_row get_key get_value is_row_valid
collect_step t p i m it rest h w a c =
    let inside : leb p.node.size i ≡ false = ground (arith, h) in
    let slot = lt→ltb i p.node.max_keys (omega arith) in rw inside (rw slot (rw a (rw c refl)))

advance_within :
    (t : Index) (p : Leaf) (i : ℕ)
    → i + 1 < p.node.size
    → advance t (at_slot p i) ≡ ok (at_slot p (suc i))
unfolding advance
advance_within t p i h =
    let one : i + 1 ≡ suc i = omega arith in
    rw (lt→ltb (i + 1) p.node.size h) (ap (λ k. ok (at_slot p k)) one)

advance_last :
    (t : Index) (p : Leaf) (i : ℕ)
    → i + 1 ≡ p.node.size
    → eqb_ℤ p.next invalid_page_index ≡ true
    → advance t (at_slot p i)
      ≡ ok
          (record { leaf_page = p; leaf_page_offset = p.node.size; predicates = []; is_end = true })
unfolding advance
advance_last t p i h e =
    let past : ltb (i + 1) p.node.size ≡ false = ground (arith, h) in
    rw (past, e)
      (ap (λ k. ok (record { leaf_page = p; leaf_page_offset = k; predicates = []; is_end = true }))
        h)

advance_link :
    (t : Index) (p q : Leaf) (i : ℕ)
    → i + 1 ≡ p.node.size
    → eqb_ℤ p.next invalid_page_index ≡ false
    → get_leaf t p.next ≡ ok q
    → advance t (at_slot p i) ≡ ok (at_slot q 0)
unfolding advance
advance_link t p q i h e g =
    let past : ltb (i + 1) p.node.size ≡ false = ground (arith, h) in rw (past, e, g) refl

-- The slots of one leaf from `i` on, and then what follows the leaf.
collect_leaf :
    (t : Index) (p : Leaf) (n i : ℕ) (it : IndexIterator) (rest : List (Row × RowId))
    → i + suc n ≡ p.node.size
    → p.node.size ≤ p.node.max_keys
    → ((j : ℕ) → j + 1 ≡ p.node.size → advance t (at_slot p j) ≡ ok it)
    → collect (suc (length rest)) t it ≡ ok rest
    → collect (suc (length (rows_from p i (suc n) ++ rest))) t (at_slot p i)
      ≡ ok (rows_from p i (suc n) ++ rest)
unfolding range
collect_leaf t p zero i it rest e w a c =
    collect_step t p i (suc (length rest)) it rest (omega arith) w (a i (omega arith)) c
collect_leaf t p (suc n) i it rest e w a c =
    collect_step t p i _ (at_slot p (suc i)) (rows_from p (suc i) (suc n) ++ rest) (omega arith) w
      (advance_within t p i (omega arith)) (collect_leaf t p n (suc i) it rest (omega arith) w a c)

collect_whole :
    (t : Index) (p : Leaf) (m : ℕ) (it : IndexIterator) (rest : List (Row × RowId))
    → 0 < m
    → m ≡ p.node.size
    → p.node.size ≤ p.node.max_keys
    → ((j : ℕ) → j + 1 ≡ p.node.size → advance t (at_slot p j) ≡ ok it)
    → collect (suc (length rest)) t it ≡ ok rest
    → collect (suc (length (rows_from p 0 m ++ rest))) t (at_slot p 0)
      ≡ ok (rows_from p 0 m ++ rest)
collect_whole t p zero it rest h e w a c = absurd (omega arith)
collect_whole t p (suc k) it rest h e w a c = collect_leaf t p k 0 it rest (omega arith) w a c

-- A scan without conditions from a leaf that is not empty returns the keys and row ids of its
-- slots, and then those of the leaves that follow it by their links, none of them empty, each once
-- and in order, and then it ends.
pub collect-Chain :
    (t : Index) (p : Leaf) (rest : List (Row × RowId))
    → 0 < p.node.size
    → p.node.size ≤ p.node.max_keys
    → Chain t p rest
    → collect (suc (length (rows_from p 0 p.node.size ++ rest))) t (at_slot p 0)
      ≡ ok (rows_from p 0 p.node.size ++ rest)
unfolding collect next_row
collect-Chain t p rest h w (last e) =
    collect_whole t p p.node.size _ [] h refl w (λ j k. advance_last t p j k e) refl
collect-Chain t p rest h w (link q {rest = rest'} e g h' w' chain) =
    collect_whole t p p.node.size _ _ h refl w (λ j k. advance_link t p q j k e g)
      (collect-Chain t q rest' h' w' chain)
