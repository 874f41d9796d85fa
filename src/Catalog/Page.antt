-- ===== src/Catalog/Page.antt =====
-- lib/sql/catalog.cpp with lib/sql/flexible.cpp: the page of a scheme table, and what it holds.
use relvec_db.Common.{
  ℕ, suc, ◌+◌, ◌<◌, ◌≤◌, ◌≡◌, refl, ap, sym, ◌∙◌, some, none, List, [], ◌∷◌, ◌++◌, arith, length,
  length-append, get_elem?,
}
use relvec_db.Common.Ranges.{range, length-range}
use relvec_db.Common.Outcome.{ok}
use relvec_db.Row.{ColumnSchema, Schema}
use relvec_db.TablePage.{Frame, page_size}
use relvec_db.TablePage.Flexible.{sum, get_sizes_rows, get_row, read_row, insert_row}
use relvec_db.TablePage.Flexible.Append.{
  appended, appended-sizes, appended-count, get_row-append_row,
}
use relvec_db.TablePage.Flexible.Keep.{get_row-insert_row_before}
use relvec_db.Catalog.{fixed_schema}
use relvec_db.Catalog.Rows.{row_of, row_space, IsSaved, row_of-FitsRow, row_of-bytes}

-- From row `i` on, the page has the rows of these columns, and then no row.
abbrev pub Reads : Frame → ℕ → Schema → Type 0
Reads d i [] = get_row fixed_schema d i ≡ ok []
Reads d i (column ∷ schema) =
    (get_row fixed_schema d i ≡ ok (row_of column)) × Reads d (suc i) schema

abbrev pub space : Schema → ℕ
space [] = 0
space (column ∷ schema) = row_space column + space schema

pub record Holds (d : Frame) (schema : Schema) : Type 0 where
  pub count : d 0 ≡ length schema
  pub used : sum (get_sizes_rows d) ≡ space schema
  pub reads : Reads d 0 schema

get_elem?-past : (s : List ℕ) → get_elem? s (length s) ≡ none
get_elem?-past [] = refl
get_elem?-past (c ∷ s) = get_elem?-past s

-- Past the last row there is none.
get_row-past : (d : Frame) (i : ℕ) → i ≡ d 0 → get_row fixed_schema d i ≡ ok []
unfolding get_row read_row
get_row-past d i e =
    let past : get_elem? (get_sizes_rows d) i ≡ none =
      ap (get_elem? (get_sizes_rows d)) (e ∙ sym (length-range d 1 (d 0)))
      ∙ get_elem?-past (get_sizes_rows d) in
    rw (past, get_row) refl

pub Holds-nil : Holds (λ j. 0) []
unfolding sum range
Holds-nil = record { count = refl; used = refl; reads = get_row-past (λ j. 0) 0 refl }

pub space-append :
    (schema : Schema) (column : ColumnSchema)
    → space (schema ++ column ∷ []) ≡ space schema + row_space column
space-append [] column = omega arith
space-append (c ∷ schema) column = omega (arith, space-append schema column)

sum-snoc : (s : List ℕ) (n : ℕ) → sum (s ++ n ∷ []) ≡ sum s + n
unfolding sum
sum-snoc [] n = omega arith
sum-snoc (c ∷ s) n = omega (arith, sum-snoc s n)

module _ (d d' : Frame) (column : ColumnSchema)
    (before : (i : ℕ) → i < d 0 → get_row fixed_schema d' i ≡ get_row fixed_schema d i)
    (new : get_row fixed_schema d' (d 0) ≡ ok (row_of column))
    (past : get_row fixed_schema d' (d 0 + 1) ≡ ok []) where
  Reads-append :
      (i : ℕ) (schema : Schema)
      → i + length schema ≡ d 0
      → Reads d i schema
      → Reads d' i (schema ++ column ∷ [])
  Reads-append i [] e r =
      let here : i ≡ d 0 = omega (arith, e) in
      let next : suc i ≡ d 0 + 1 = omega (arith, e) in
      (ap (get_row fixed_schema d') here ∙ new, ap (get_row fixed_schema d') next ∙ past)
  Reads-append i (c ∷ schema) e r =
      (before i (omega (arith, e)) ∙ r.0, Reads-append (suc i) schema (omega (arith, e)) r.1)

-- A page with room takes the row of one more column.
pub insert_row-Holds :
    (d : Frame) (schema : Schema) (column : ColumnSchema)
    → IsSaved column
    → Holds d schema
    → length schema + 1 < 256
    → space schema + row_space column + 2 + length schema ≤ page_size
    → (d' : Frame) × (insert_row fixed_schema (row_of column) d ≡ ok (some (d 0), d'))
      × Holds d' (schema ++ column ∷ [])
insert_row-Holds d schema column s h few room =
    let (bytes, eb, el) = row_of-bytes column s in
    let small : length bytes < 256 = omega (arith, el, s.name_short) in
    let few' : d 0 + 1 < 256 = omega (arith, h.count) in
    let room' : sum (get_sizes_rows d) + length bytes + 2 + d 0 ≤ page_size =
      omega (arith, h.count, h.used, el) in
    let fits = row_of-FitsRow column s in
    let (done, read) =
      get_row-append_row fixed_schema (row_of column) d fits (omega arith) bytes eb small few'
        room' in
    let counted = appended-count bytes d few' small room' in
    (
      appended bytes d,
      done,
      record {
        count = omega (arith, counted, h.count, length-append schema (column ∷ []));
        used =
            ap sum (appended-sizes bytes d few' small room')
            ∙ omega (
              arith,
              sum-snoc (get_sizes_rows d) (length bytes),
              h.used,
              el,
              space-append schema column,
            );
        reads =
            Reads-append d (appended bytes d) column
              (λ i l.
                get_row-insert_row_before fixed_schema (row_of column) d (appended bytes d)
                  (some (d 0)) bytes i fits (omega arith) eb small few' room' done l)
              read (get_row-past (appended bytes d) (d 0 + 1) (sym counted)) 0 schema
              (omega (arith, h.count)) h.reads;
      },
    )
