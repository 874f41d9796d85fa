-- ===== src/Table.antt =====
-- lib/sql/table.cpp, `ImplementedTable`, with the pages of its file, and lib/sql/scan.cpp.
-- A table takes the operations of its pages from a page provider, so they are a record here, which
-- `FixedPage` and `FlixiblePage` fill.
pub mod Insert
pub mod Scan
mod Tests
use relvec_db.Common.{
  ℕ, zero, suc, ◌+◌, ◌-◌, Bool, Option, none, some, ltb, ◌==◌, ◌&&◌, if◌then◌else◌, length,
}
use relvec_db.Common.Int.{ℤ, pos, negsuc}
use relvec_db.Common.Outcome.{Outcome, ok, fail, no_fuel, out_of_range, ◌>>=◌, ◌>>◌, guard}
use relvec_db.Row.{Schema, Row, RowId}
use relvec_db.TablePage.{Frame, page_size}
use relvec_db.TablePage.Fixed
use relvec_db.TablePage.Flexible

-- `ITablePage`, for the frame of a page.
pub record PageOps : Type 0 where
  pub get_row_count : Outcome ℕ
  pub get_row : Frame → ℕ → Outcome Row
  pub delete_row : ℕ → Frame → Outcome Frame
  pub insert_row : Row → Frame → Outcome (Option ℕ × Frame)

-- `FixedPageProvider`
unfoldable pub fixed_page : Schema → PageOps
unfolding Fixed.get_row_capacity Fixed.get_row Fixed.delete_row Fixed.insert_row
fixed_page schema = record {
  get_row_count = Fixed.get_row_capacity schema;
  get_row = Fixed.get_row schema;
  delete_row = Fixed.delete_row schema;
  insert_row = Fixed.insert_row schema;
}

-- `FlexiblePageProvider`
unfoldable pub flexible_page : Schema → PageOps
unfolding Flexible.get_row Flexible.delete_row Flexible.insert_row
flexible_page schema = record {
  get_row_count = ok (page_size - 1);
  get_row = Flexible.get_row schema;
  delete_row = Flexible.delete_row;
  insert_row = Flexible.insert_row schema;
}

-- The pages of the file, through the buffer pool, and `current_page_index`.
pub record Table : Type 0 where
  pub pages : ℕ → Frame
  pub page_count : ℕ
  pub current_page_index : ℕ

-- `getPage`, for the page index of a row id.
unfoldable pub get_page : Table → ℤ → Outcome (ℕ × Frame)
get_page t (pos i) = do guard (ltb i t.page_count) out_of_range; ok (i, t.pages i)
get_page t (negsuc i) = fail out_of_range

abbrev pub row_number : ℤ → Outcome ℕ
row_number (pos i) = ok i
row_number (negsuc i) = fail out_of_range

abbrev pub set_frame : ℕ → Frame → Table → Table
set_frame i d t = record t { pages = λ j. if j == i then d else t.pages j }

-- `file->allocPage()`: a page of zero bytes at the end of the file.
unfoldable pub alloc_page : Table → Table
alloc_page t = record {
  pages = λ j. if j == t.page_count then (λ k. 0) else t.pages j;
  page_count = t.page_count + 1;
  current_page_index = t.page_count;
}

-- A new page where the current page index is past the end.
unfoldable pub with_current_page : Table → Table
unfolding alloc_page
with_current_page t = if t.current_page_index == t.page_count then alloc_page t else t

-- The rest of a round of `insertRow`, and `go` for the rounds that follow.
unfoldable pub insert_in_page :
    (Table → Outcome (RowId × Table)) → PageOps → Row → Table → Outcome (RowId × Table)
insert_in_page go ops row t = do
  guard (ltb t.current_page_index t.page_count) out_of_range
  (slot, d) ← ops.insert_row row (t.pages t.current_page_index)
  let t' = set_frame t.current_page_index d t
  elim slot [
    | some i ↦ ok (record { page_index = pos t.current_page_index; row_index = pos i }, t')
    | none ↦ go (record t' { current_page_index = t.current_page_index + 1 })
  ]

-- `insertRow`: the pages from the current one on, and then a new one.
unfoldable pub insert_row : ℕ → PageOps → Row → Table → Outcome (RowId × Table)
unfolding with_current_page insert_in_page
insert_row zero ops row t = fail no_fuel
insert_row (suc fuel) ops row t =
    insert_in_page (insert_row fuel ops row) ops row (with_current_page t)

-- `getRow`
unfoldable pub get_row : PageOps → Table → RowId → Outcome Row
unfolding get_page
get_row ops t id = do
  (i, d) ← get_page t id.page_index
  r ← row_number id.row_index
  ops.get_row d r

-- `deleteRow`
unfoldable pub delete_row : PageOps → RowId → Table → Outcome Table
unfolding get_page
delete_row ops id t = do
  (i, d) ← get_page t id.page_index
  r ← row_number id.row_index
  d' ← ops.delete_row r d
  ok (set_frame i d' t)

-- `ScanIterator`: a page index and a row index.
abbrev pub ScanIterator : Type 0
ScanIterator = ℕ × ℕ

-- `operator++`
unfoldable pub next : PageOps → Table → ScanIterator → Outcome ScanIterator
next ops t (page, row) = do
  guard (ltb page t.page_count) out_of_range
  count ← ops.get_row_count
  ok (if ltb (row + 1) count then (page, row + 1) else (page + 1, 0))

-- `Scan::begin` and `Scan::end`, which is the last slot of the last page.
abbrev pub begin : ScanIterator
begin = (0, 0)

unfoldable pub end : PageOps → Table → Outcome ScanIterator
end ops t = do
  guard (ltb 0 t.page_count) out_of_range
  count ← ops.get_row_count
  guard (ltb 0 count) out_of_range
  ok (t.page_count - 1, count - 1)
