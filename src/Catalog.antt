-- ===== src/Catalog.antt =====
-- lib/sql/catalog.cpp, `Catalog`: the schema of a table, kept as the rows of a table of its own.
-- Opening a table again reads its pages from the file, so a schema is found as it was when the
-- frames of the table that it was saved through were last dumped.
pub mod Rows
pub mod Page
pub mod Save
pub mod Find
pub mod RoundTrip
pub mod Samples
mod Tests
use relvec_db.Common.{
  ℕ, zero, suc, ◌+◌, ◌*◌, ◌%◌, ◌^◌, Bool, true, false, Option, none, some, List, [], ◌∷◌, ◌++◌,
  ◌&&◌, ◌==◌, if◌then◌else◌, get_elem?, ltb,
}
use relvec_db.Common.Int.{pos}
use relvec_db.Common.Outcome.{Outcome, ok, fail, bad_variant, out_of_range, no_fuel, ◌>>=◌}
use relvec_db.Common.Texts.{bytes}
use relvec_db.Row.{ColumnType, ColumnSchema, Schema, Value, Row, null, uint64, string, RowId}
use relvec_db.Table.{
  Table, PageOps, ScanIterator, flexible_page, insert_row, get_row, next, begin, end,
}
use relvec_db.Store.{
  FileName, FileImage, FileSystem, check_table_exists, create_table, open_table, remove_table,
}

-- `fixed_schema`
abbrev pub fixed_schema : Schema
fixed_schema =
    record { name = bytes "A"; type = ColumnType.string; len = 0 }
    ∷ record { name = bytes "B"; type = ColumnType.uint64; len = 0 }
    ∷ record { name = bytes "id"; type = ColumnType.uint64; len = 0 }
    ∷ []

abbrev pub ops : PageOps
ops = flexible_page fixed_schema

-- `name.string() + "scheme"`
abbrev pub scheme_name : FileName → FileName
scheme_name name = name ++ bytes "scheme"

-- The number that is stored for a type. There is none for the type of vectors.
abbrev pub type_code : ColumnType → Option ℕ
type_code ColumnType.string = some 0
type_code ColumnType.boolean = some 1
type_code ColumnType.uint64 = some 2
type_code ColumnType.int64 = some 3
type_code ColumnType.varchar = some 4
type_code ColumnType.vector = none

abbrev pub column_row : ColumnSchema → ℕ → Row
column_row column code = string column.name ∷ uint64 code ∷ uint64 column.len ∷ []

-- A round of the loop of `saveTableSchema`. `insertRow` looks at one page more than there are.
unfoldable pub save_column : ColumnSchema → Option ℕ → Table → Outcome Table
unfolding insert_row
save_column column none t = ok t
save_column column (some code) t = do
  (id, t') ← insert_row (suc t.page_count) ops (column_row column code) t
  ok t'

unfoldable pub save_columns : Schema → Table → Outcome Table
unfolding save_column
save_columns [] t = ok t
save_columns (column ∷ schema) t = do
  t' ← save_column column (type_code column.type) t
  save_columns schema t'

-- `std::get<uint64_t>(row[i])` and `std::get<std::string>(row[i])`
abbrev pub uint64_of : Option Value → Outcome ℕ
uint64_of none = fail out_of_range
uint64_of (some (uint64 n)) = ok n
uint64_of (some v) = fail bad_variant

abbrev pub string_of : Option Value → Outcome (List ℕ)
string_of none = fail out_of_range
string_of (some (string s)) = ok s
string_of (some v) = fail bad_variant

-- The type of a column by its number, which is converted to an `int`.
abbrev pub type_of : ℕ → ColumnType
type_of code =
    if code == 1
    then ColumnType.boolean
    else if code == 2
    then ColumnType.uint64
    else if code == 3
    then ColumnType.int64
    else if code == 4
    then ColumnType.varchar
    else ColumnType.string

-- The column that a row stands for.
unfoldable pub column_of : Row → Outcome ColumnSchema
column_of row = do
  code ← uint64_of (get_elem? row 1)
  name ← string_of (get_elem? row 0)
  len ← uint64_of (get_elem? row 2)
  ok (record { name = name; type = type_of (code % 2 ^ 32); len = len % 2 ^ 32 })

abbrev pub it_eq : ScanIterator → ScanIterator → Bool
it_eq (page, row) (page', row') = page == page' && row == row'

-- What follows when a row was read: the loop ends at the first row with no values.
unfoldable pub take_row : Outcome Schema → Row → Outcome Schema
take_row rest [] = ok []
take_row rest (v ∷ row) = do column ← column_of (v ∷ row); schema ← rest; ok (column ∷ schema)

-- The loop of `findTableSchema`, from an iterator up to the end of the scan.
unfoldable pub read_columns : ℕ → Table → ScanIterator → ScanIterator → Outcome Schema
unfolding get_row next take_row
read_columns zero t last it = fail no_fuel
read_columns (suc fuel) t last it =
    let rest = (do it' ← next ops t it; read_columns fuel t last it') in
    let visited = (do
      row ← get_row ops t (record { page_index = pos it.0; row_index = pos it.1 })
      take_row rest row) in
    if it_eq it last then ok [] else visited

-- The scan of a table: the loop makes at most as many rounds as there are slots.
unfoldable pub read_schema : Table → Outcome Schema
unfolding read_columns end
read_schema t = do last ← end ops t; read_columns (t.page_count * 4096) t last begin

-- The file after `allocPage` has made it longer: pages of zero bytes behind those it had.
abbrev pub grown : FileImage → Table → FileImage
grown file t = record {
  pages = λ page. if ltb page file.page_count then file.pages page else (λ j. 0);
  page_count = t.page_count;
}

module _ (fs : FileSystem) where
  open fs use {Disk, image, put}

  abbrev pub grow : FileName → Table → Option FileImage → Disk → Disk
  grow name t none disk = disk
  grow name t (some file) disk = put name (grown file t) disk

  -- `saveTableSchema`: the disk, and the open table, whose frames are in the pool.
  unfoldable pub save_table_schema : FileName → Schema → Disk → Outcome (Table × Disk)
  unfolding check_table_exists create_table open_table save_columns
  save_table_schema name schema disk = do
    disk' ←
        (if check_table_exists fs (scheme_name name) disk
          then ok disk
          else create_table fs (scheme_name name) disk)
    t ← open_table fs (scheme_name name) disk'
    t' ← save_columns schema t
    ok (t', grow (scheme_name name) t' (image disk' (scheme_name name)) disk')

  -- `findTableSchema`: `none` is the null pointer. The disk is the one that its reads find: a read that
  -- takes a frame of an earlier descriptor dumps that frame first, which is a `write_back` before.
  unfoldable pub find_table_schema : FileName → Disk → Outcome (Option Schema)
  unfolding check_table_exists open_table read_schema column_of
  find_table_schema name disk =
      let found = (do
        t ← open_table fs (scheme_name name) disk
        schema ← read_schema t
        ok (some schema)) in
      if check_table_exists fs (scheme_name name) disk then found else ok none

  -- `forgetTableSchema`
  unfoldable pub forget_table_schema : FileName → Disk → Disk
  unfolding check_table_exists remove_table
  forget_table_schema name disk =
      if check_table_exists fs (scheme_name name) disk
      then (remove_table fs (scheme_name name) disk).1
      else disk
