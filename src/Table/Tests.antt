-- ===== src/Table/Tests.antt =====
-- Tables of pages of lib/sql/fixed.cpp, and the laws of lib/sql/table.cpp and lib/sql/scan.cpp at
-- them.
use relvec_db.Common.{ℕ, ◌+◌, ◌*◌, ◌<◌, ◌≡◌, inl, inr, refl, true, [], ◌∷◌, arith}
use relvec_db.Common.Outcome.{ok}
use relvec_db.Row.{ColumnType, Schema, Row, RowId, boolean}
use relvec_db.Marshal.{get_fixed_row_space}
use relvec_db.TablePage.Fixed
use relvec_db.TablePage.Fixed.Rows.{get_row-insert_row}
use relvec_db.Table.{Table, fixed_page, insert_row, get_row, begin, end}
use relvec_db.Table.Insert.{Stores, get_row-insert_row_id}
use relvec_db.Table.Scan.{advance_by, advance_by-begin}

abbrev schema : Schema
schema = record { name = b'n' ∷ []; type = ColumnType.boolean; len = 0 } ∷ []

abbrev row : Row
row = boolean true ∷ []

fixed_space : get_fixed_row_space schema ≡ ok 9
unfolding get_fixed_row_space
fixed_space = refl

-- The pages of `FixedPage` store the row.
fixed_page-Stores : Stores (fixed_page schema) row
unfolding fixed_page Fixed.insert_row Fixed.get_row
fixed_page-Stores = record {
  stored = λ d.
      elim (get_row-insert_row schema 9 fixed_space row (tt, tt) (omega arith) ((λ e. cc), tt) d) [
        | inl (e, all) ↦ inl e
        | inr (i, d', e, h, free, r) ↦ inr (i, d', e, r)
      ];
  fresh = (0, _, refl, refl);
}

-- One page, and no row.
abbrev one_page : Table
one_page = record { pages = λ i j. 0; page_count = 1; current_page_index = 0 }

get_row-insert_row_id_example :
    (id : RowId) × (t : Table) × (insert_row 2 (fixed_page schema) row one_page ≡ ok (id, t))
    × (get_row (fixed_page schema) t id ≡ ok row)
get_row-insert_row_id_example =
    get_row-insert_row_id (fixed_page schema) row fixed_page-Stores 1 one_page refl

abbrev two_pages : Table
two_pages = record { pages = λ i j. 0; page_count = 2; current_page_index = 0 }

advance_by-begin_example :
    (page : ℕ) × (number : ℕ) × (advance_by 500 (fixed_page schema) two_pages begin
      ≡ ok (page, number))
    × (number < 409)
    × (page * 409 + number ≡ 500)
unfolding fixed_page
advance_by-begin_example =
    advance_by-begin (fixed_page schema) two_pages 409 500 refl (omega arith) (omega arith)

-- The end of a scan is the last slot, so a loop up to it leaves that slot out.
end_run : end (fixed_page schema) two_pages ≡ ok (1, 408)
unfolding end fixed_page
end_run = refl
