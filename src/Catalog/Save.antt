-- ===== src/Catalog/Save.antt =====
-- lib/sql/catalog.cpp, `saveTableSchema`: the rows of a schema on the one page of its table.
use mathlib.Core.List.{append-nil, append_assoc}
use relvec_db.Common.{
  ℕ, suc, ◌+◌, ◌<◌, ◌≤◌, ◌≡◌, refl, ap, sym, ◌∙◌, some, [], ◌∷◌, ◌++◌, arith, length, length-append,
  All, ◌==◌, if◌then◌else◌,
}
use relvec_db.Common.Int.{pos}
use relvec_db.Common.Outcome.{ok}
use relvec_db.Row.{ColumnSchema, Schema, Row, RowId}
use relvec_db.TablePage.{Frame, page_size}
use relvec_db.TablePage.Flexible
use relvec_db.Table.{
  Table, PageOps, flexible_page, insert_row, insert_in_page, with_current_page, alloc_page,
}
use relvec_db.Store.{opened, empty_file}
use relvec_db.Catalog.{fixed_schema, ops, save_column, save_columns, type_code}
use relvec_db.Catalog.Rows.{row_of, row_space, IsSaved, type_code-code_of}
use relvec_db.Catalog.Page.{Holds, space, space-append, insert_row-Holds}

-- A table of one page, or a new one, where a zero page is still to be added.
pub record OnePage (t : Table) (d : Frame) : Type 0 where
  pub one : t.page_count ≡ 1
  pub first : t.current_page_index ≡ 0
  pub page : t.pages 0 ≡ d

module _ (page : PageOps) (fuel : ℕ) (d d' : Frame) (row : Row) (i : ℕ) where
  insert_row-here :
      (t : Table)
      → OnePage t d
      → page.insert_row row d ≡ ok (some i, d')
      → (id : RowId) × (t' : Table) × (insert_row (suc fuel) page row t ≡ ok (id, t'))
        × OnePage t' d'
  unfolding insert_row insert_in_page with_current_page
  insert_row-here t h e = (
    record { page_index = pos 0; row_index = pos i },
    record t { pages = λ j. if j == t.current_page_index then d' else t.pages j },
    simp (h.one, h.first, h.page, e),
    record { one = h.one; first = h.first; page = rw h.first refl },
  )

  insert_row-new :
      page.insert_row row (λ j. 0) ≡ ok (some i, d')
      → (id : RowId) × (t' : Table) × (insert_row (suc fuel) page row (opened empty_file)
          ≡ ok (id, t'))
        × OnePage t' d'
  unfolding insert_row insert_in_page with_current_page alloc_page
  insert_row-new e = (
    record { page_index = pos 0; row_index = pos i },
    record {
      pages = λ j. if j == 0 then d' else if j == 0 then (λ k. 0) else (λ k. 0);
      page_count = 0 + 1;
      current_page_index = 0;
    },
    rw e refl,
    record { one = refl; first = refl; page = refl },
  )

-- A table whose first page is `d`, or a new one, whose first page will be of zero bytes.
pub data IsReady : Table → Frame → Type 0 where
  new : {t : Table} {d : Frame} → t ≡ opened empty_file → d ≡ (λ j. 0) → IsReady t d
  used : {t : Table} {d : Frame} → OnePage t d → IsReady t d

-- The row of a column is inserted into that page.
insert_row-ready :
    {t : Table} {d : Frame} (fuel : ℕ) (d' : Frame) (row : Row) (i : ℕ)
    → IsReady t d
    → Flexible.insert_row fixed_schema row d ≡ ok (some i, d')
    → (id : RowId) × (t' : Table) × (insert_row (suc fuel) ops row t ≡ ok (id, t')) × OnePage t' d'
unfolding flexible_page
insert_row-ready fuel d' row i (new {t} {d} et ed) e =
    rw et
      (insert_row-new ops fuel d d' row i (ap (Flexible.insert_row fixed_schema row) (sym ed) ∙ e))
insert_row-ready fuel d' row i (used {t} {d} one) e = insert_row-here ops fuel d d' row i t one e

save_column-Holds :
    {t : Table} {d : Frame} (schema : Schema) (column : ColumnSchema)
    → IsReady t d
    → IsSaved column
    → Holds d schema
    → length schema + 1 < 256
    → space schema + row_space column + 2 + length schema ≤ page_size
    → (t' : Table) × (d' : Frame) × (save_column column (type_code column.type) t ≡ ok t')
      × OnePage t' d'
      × Holds d' (schema ++ column ∷ [])
unfolding save_column
save_column-Holds {t} {d} schema column ready s h few room =
    let (d', e, h') = insert_row-Holds d schema column s h few room in
    let (id, t', e', one) = insert_row-ready t.page_count d' (row_of column) (d 0) ready e in
    (t', d', rw (type_code-code_of column s) (rw e' refl), one, h')

-- The loop saves all columns on the page, where there is room for them.
pub save_columns-Holds :
    (schema before : Schema) {t : Table} {d : Frame}
    → IsReady t d
    → All IsSaved schema
    → Holds d before
    → length before + length schema < 256
    → space before + space schema + 2 + (length before + length schema) ≤ page_size
    → (t' : Table) × (d' : Frame) × (save_columns schema t ≡ ok t')
      × IsReady t' d'
      × Holds d' (before ++ schema)
unfolding save_columns
save_columns-Holds [] before {t} {d} ready s h few room = (t, d, refl, ready, rw append-nil h)
save_columns-Holds (column ∷ schema) before {t} {d} ready s h few room =
    let (t₁, d₁, e₁, one, h₁) =
      save_column-Holds before column ready s.0 h (omega (arith, few)) (omega (arith, room)) in
    let (t', d', e', ready', h') =
      save_columns-Holds schema (before ++ column ∷ []) (used one) s.1 h₁
        (omega (arith, few, length-append before (column ∷ [])))
        (omega (arith, room, length-append before (column ∷ []), space-append before column)) in
    (t', d', rw e₁ e', ready', rw (append_assoc before (column ∷ []) schema) at h')
