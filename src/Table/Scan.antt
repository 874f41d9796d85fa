-- ===== src/Table/Scan.antt =====
-- lib/sql/scan.cpp: the slots that an iterator comes to.
use native.Mathlib.Decide.{dec_lt}
use native.Mathlib.Nat.{mul-le-mul_right}
use relvec_db.Common.{
  ℕ, zero, suc, ◌+◌, ◌*◌, ◌<◌, ◌≡◌, refl, arith, ltb, lt→ltb, Bool-cases, inl, inr, true,
}
use relvec_db.Common.Outcome.{Outcome, ok, ◌>>=◌}
use relvec_db.Table.{PageOps, Table, ScanIterator, next, begin}

-- `++it`, so many times.
unfoldable pub advance_by : ℕ → PageOps → Table → ScanIterator → Outcome ScanIterator
unfolding next
advance_by zero ops t it = ok it
advance_by (suc n) ops t it = do it' ← advance_by n ops t it; next ops t it'

page_within :
    {pages count : ℕ} (page row n : ℕ)
    → row < count
    → page * count + row ≡ n
    → suc n < pages * count + 1
    → page < pages
page_within {pages = pages} {count = count} page row n r e l = elim (dec_lt page pages) [
  | yes h ↦ h
  | no h ↦ absurd (omega (arith, mul-le-mul_right {m = pages} {n = page} count (omega arith), e, l))
]

-- On pages of `count` slots, with at least one slot each, the iterator of a scan that is advanced
-- `n` times from the beginning, up to the number of slots of the table, is at row `r` of page `p`
-- with `p * count + r = n`.
pub advance_by-begin :
    (ops : PageOps) (t : Table) (count n : ℕ)
    → ops.get_row_count ≡ ok count
    → 0 < count
    → n < t.page_count * count + 1
    → (page : ℕ) × (row : ℕ) × (advance_by n ops t begin ≡ ok (page, row))
      × (row < count)
      × (page * count + row ≡ n)
unfolding advance_by next
advance_by-begin ops t count zero e h l = (0, 0, refl, h, omega arith)
advance_by-begin ops t count (suc n) e h l =
    let (page, row, ea, er, en) = advance_by-begin ops t count n e h (omega arith) in
    let inside : ltb page t.page_count ≡ true =
      lt→ltb page t.page_count (page_within page row n er en l) in
    elim (Bool-cases (ltb (row + 1) count)) [
      | inl b ↦ (page, row + 1, rw (ea, inside, e, b) refl, ground (arith, b), omega (arith, en))
      | inr b ↦ (page + 1, 0, rw (ea, inside, e, b) refl, h, ground (arith, en, er, b))
    ]
