-- ===== src/Catalog/Find.antt =====
-- lib/sql/catalog.cpp, `findTableSchema`: the loop over the rows of a scheme table of one page.
use relvec_db.Common.{
  ℕ, zero, suc, ◌+◌, ◌*◌, ◌<◌, ◌≡◌, refl, [], ◌∷◌, arith, length, All, ◌==◌, false, lt→ltb,
}
use relvec_db.Common.Int.{pos}
use relvec_db.Common.Outcome.{ok}
use relvec_db.Row.{ColumnSchema, Schema}
use relvec_db.TablePage.{Frame}
use relvec_db.TablePage.Flexible
use relvec_db.Table.{Table, flexible_page, get_row, get_page, next, end}
use relvec_db.Catalog.{fixed_schema, ops, read_columns, read_schema, take_row}
use relvec_db.Catalog.Rows.{row_of, IsSaved, column_of-row_of}
use relvec_db.Catalog.Page.{Reads}

take_row-row_of :
    (column : ColumnSchema) (schema : Schema)
    → IsSaved column
    → take_row (ok schema) (row_of column) ≡ ok (column ∷ schema)
unfolding take_row
take_row-row_of column schema h = rw (column_of-row_of column h) refl

module _ (t : Table) (d : Frame) (one : t.page_count ≡ 1) (page : t.pages 0 ≡ d) where
  get_row-first :
      (i : ℕ)
      → get_row ops t (record { page_index = pos 0; row_index = pos i })
        ≡ Flexible.get_row fixed_schema d i
  unfolding get_row get_page flexible_page
  get_row-first i = rw (one, page) refl

  next-first : (i : ℕ) → i + 1 < 4095 → next ops t (0, i) ≡ ok (0, i + 1)
  unfolding next flexible_page
  next-first i h = rw (one, lt→ltb (i + 1) 4095 h) refl

  end-first : end ops t ≡ ok (0, 4094)
  unfolding end flexible_page
  end-first = rw one refl

  read_columns-Reads :
      (fuel i : ℕ) (schema : Schema)
      → length schema < fuel
      → i + length schema < 4094
      → All IsSaved schema
      → Reads d i schema
      → read_columns fuel t (0, 4094) (0, i) ≡ ok schema
  unfolding read_columns
  read_columns-Reads zero i schema f l s r = absurd (omega (arith, f))
  read_columns-Reads (suc fuel) i [] f l s r =
      let before : (i == 4094) ≡ false = ground (arith, l) in
      rw (before, get_row-first i, r) (unfold take_row in refl)
  read_columns-Reads (suc fuel) i (column ∷ schema) f l s r =
      let before : (i == 4094) ≡ false = ground (arith, l) in
      let rest : read_columns fuel t (0, 4094) (0, i + 1) ≡ ok schema =
        read_columns-Reads fuel (i + 1) schema (omega (arith, f)) (omega (arith, l)) s.1
          (let e : suc i ≡ i + 1 = omega arith in rw e at r.1) in
      rw (before, get_row-first i, r.0)
        (rw (next-first i (omega (arith, l)), rest) (take_row-row_of column schema s.0))

  -- The scan finds the columns of the page.
  pub read_schema-Reads :
      (schema : Schema)
      → length schema < 4094
      → All IsSaved schema
      → Reads d 0 schema
      → read_schema t ≡ ok schema
  unfolding read_schema
  read_schema-Reads schema l s r = rw end-first (
      read_columns-Reads (t.page_count * 4096) 0 schema (omega (arith, l, one)) (omega (arith, l)) s
        r)
