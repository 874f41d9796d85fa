-- ===== src/Table/Insert.antt =====
-- lib/sql/table.cpp, `insertRow`: it ends, and the row is read back under the row id it returns.
use relvec_db.Common.{
  ℕ, zero, suc, ◌+◌, ◌<◌, ◌≡◌, ◌⊎◌, inl, inr, refl, ap, ◌∙◌, true, false, none, some, arith, lt→ltb,
  ◌==◌,
}
use relvec_db.Common.Int.{pos}
use relvec_db.Common.Outcome.{Outcome, ok}
use relvec_db.Row.{Row, RowId}
use relvec_db.TablePage.{Frame}
use relvec_db.Table.{
  PageOps, Table, insert_row, get_row, get_page, alloc_page, set_frame, with_current_page,
  insert_in_page,
}

-- What a page promises for a row: an insertion leaves a full page alone, or the row is read back at
-- the index that it returns.
pub record Stores (ops : PageOps) (row : Row) : Type 0 where
  pub stored :
      (d : Frame)
      → (ops.insert_row row d ≡ ok (none, d))
        ⊎ ((i : ℕ) × (d' : Frame) × (ops.insert_row row d ≡ ok (some i, d'))
            × (ops.get_row d' i ≡ ok row))
  pub fresh :
      (i : ℕ) × (d' : Frame) × (ops.insert_row row (λ j. 0) ≡ ok (some i, d'))
      × (ops.get_row d' i ≡ ok row)

module _ (ops : PageOps) (row : Row) (s : Stores ops row) where
  -- What an insertion comes to.
  abbrev Inserted : ℕ → Table → Type 0
  Inserted fuel t =
      (id : RowId) × (t' : Table) × (insert_row fuel ops row t ≡ ok (id, t'))
      × (get_row ops t' id ≡ ok row)

  -- A round that inserts into the current page.
  insert_in_page-stored :
      (go : Table → Outcome (RowId × Table)) (t : Table) (i : ℕ) (d : Frame)
      → t.current_page_index < t.page_count
      → ops.insert_row row (t.pages t.current_page_index) ≡ ok (some i, d)
      → ops.get_row d i ≡ ok row
      → (id : RowId) × (t' : Table) × (insert_in_page go ops row t ≡ ok (id, t'))
        × (get_row ops t' id ≡ ok row)
  unfolding insert_in_page get_row get_page
  insert_in_page-stored go t i d h ei eg =
      let inside = lt→ltb t.current_page_index t.page_count h in
      let here : t.current_page_index == t.current_page_index ≡ true = ground arith in
      (
        record { page_index = pos t.current_page_index; row_index = pos i },
        set_frame t.current_page_index d t,
        rw inside (rw ei refl),
        rw inside (rw here eg),
      )

  insert_in_page-full :
      (go : Table → Outcome (RowId × Table)) (t : Table)
      → t.current_page_index < t.page_count
      → ops.insert_row row (t.pages t.current_page_index) ≡ ok (none, t.pages t.current_page_index)
      → insert_in_page go ops row t
        ≡ go (record (set_frame t.current_page_index (t.pages t.current_page_index) t) {
          current_page_index = t.current_page_index + 1;
        })
  unfolding insert_in_page
  insert_in_page-full go t h e = rw (lt→ltb t.current_page_index t.page_count h) (rw e refl)

  insert_row-step :
      (fuel : ℕ) (t u : Table)
      → with_current_page t ≡ u
      → insert_row (suc fuel) ops row t ≡ insert_in_page (insert_row fuel ops row) ops row u
  unfolding insert_row
  insert_row-step fuel t u e = ap (insert_in_page (insert_row fuel ops row) ops row) e

  at_end : (t : Table) → t.current_page_index ≡ t.page_count → with_current_page t ≡ alloc_page t
  unfolding with_current_page
  at_end t e =
      let same : t.current_page_index == t.page_count ≡ true = ground (arith, e) in rw same refl

  before_end : (t : Table) → t.current_page_index < t.page_count → with_current_page t ≡ t
  unfolding with_current_page
  before_end t h =
      let less : t.current_page_index == t.page_count ≡ false = ground (arith, h) in rw less refl

  alloc_page-zero : (t : Table) → (alloc_page t).pages (alloc_page t).current_page_index ≡ (λ j. 0)
  unfolding alloc_page
  alloc_page-zero t = let here : t.page_count == t.page_count ≡ true = ground arith in rw here refl

  alloc_page-inside : (t : Table) → (alloc_page t).current_page_index < (alloc_page t).page_count
  unfolding alloc_page
  alloc_page-inside t = omega arith

  -- Where the pages leave a full page alone, read back the row that they insert, and take the row
  -- when new, `insertRow` ends after at most one page more than there are from the current one on,
  -- and `getRow` then returns the row under the row id that it returned.
  pub get_row-insert_row_id :
      (n : ℕ) (t : Table) → t.current_page_index + n ≡ t.page_count → Inserted (suc n) t
  get_row-insert_row_id zero t e =
      let (i, d, ei, eg) = s.fresh in
      let (id, t', eq, eg') =
        insert_in_page-stored (insert_row zero ops row) (alloc_page t) i d (alloc_page-inside t)
          (ap (ops.insert_row row) (alloc_page-zero t) ∙ ei) eg in
      (id, t', insert_row-step zero t (alloc_page t) (at_end t (omega arith)) ∙ eq, eg')
  get_row-insert_row_id (suc n) t e = elim (s.stored (t.pages t.current_page_index)) [
    | inr (i, d, ei, eg) ↦
        let (id, t', eq, eg') =
          insert_in_page-stored (insert_row (suc n) ops row) t i d (omega arith) ei eg in
        (id, t', insert_row-step (suc n) t t (before_end t (omega arith)) ∙ eq, eg')
    | inl full ↦
        let after = set_frame t.current_page_index (t.pages t.current_page_index) t in
        let (id, t', eq, eg) =
          get_row-insert_row_id n (record after { current_page_index = t.current_page_index + 1 })
            (omega arith) in
        (
          id,
          t',
          insert_row-step (suc n) t t (before_end t (omega arith))
              ∙ insert_in_page-full (insert_row (suc n) ops row) t (omega arith) full
              ∙ eq,
          eg,
        )
  ]
