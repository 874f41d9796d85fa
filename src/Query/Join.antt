-- ===== src/Query/Join.antt =====
-- lib/sql/interpreter.cpp, `extractValue` and `executeJoin`: the natural join of tables.
pub mod Columns
pub mod Rows
pub mod Pair
pub mod Sound
pub mod Complete
pub mod Total
use relvec_db.Common.{
  ℕ, zero, suc, ◌*◌, Bool, true, false, ◌&&◌, Option, none, some, List, [], ◌∷◌, ◌++◌, ◌==◌,
  if◌then◌else◌,
}
use relvec_db.Common.Int.{pos}
use relvec_db.Common.Outcome.{
  Outcome, ok, fail, out_of_range, null_pointer, assertion, no_fuel, ◌>>=◌,
}
use relvec_db.Comparator.{Sign, less, equal, greater, comparator}
use relvec_db.Row.{ColumnType, ColumnSchema, Schema, Value, Row, bytes_eq}
use relvec_db.Table.{Table, PageOps, ScanIterator, get_row, next, begin, end}
use relvec_db.Store.{FileName, FileSystem}
use relvec_db.Catalog.{find_table_schema, it_eq}
use relvec_db.Database.{OpenTable, get_table, schema_of}

-- `RowSet`
pub record RowSet : Type 0 where
  pub schema : Schema
  pub rows : List Row

abbrev pub type_number : ColumnType → ℕ
type_number ColumnType.boolean = 0
type_number ColumnType.uint64 = 1
type_number ColumnType.int64 = 2
type_number ColumnType.varchar = 3
type_number ColumnType.string = 4
type_number ColumnType.vector = 5

-- `ColumnSchema::operator==`
unfoldable pub column_eq : ColumnSchema → ColumnSchema → Bool
unfolding bytes_eq
column_eq c d = bytes_eq c.name d.name && type_number c.type == type_number d.type && c.len == d.len

-- `extractValue`: the value at the first column of the schema that is equal. A row that is shorter
-- than its schema is read past its end.
unfoldable pub extract_value : Row → Schema → ColumnSchema → Outcome (Option Value)
unfolding column_eq
extract_value row [] column = ok none
extract_value [] (c ∷ schema) column =
    if column_eq c column then fail out_of_range else extract_value [] schema column
extract_value (v ∷ row) (c ∷ schema) column =
    if column_eq c column then ok (some v) else extract_value row schema column

-- Whether the left schema has a column that is equal.
unfoldable pub is_common : Schema → ColumnSchema → Bool
unfolding column_eq
is_common [] column = false
is_common (c ∷ left) column = if column_eq column c then true else is_common left column

-- The loop over the columns on the right: those on both sides, and those behind the left ones.
unfoldable pub common_columns : Schema → Schema → Schema
unfolding is_common
common_columns left [] = []
common_columns left (c ∷ right) =
    if is_common left c then c ∷ common_columns left right else common_columns left right

unfoldable pub right_columns : Schema → Schema → Schema
unfolding is_common
right_columns left [] = []
right_columns left (c ∷ right) =
    if is_common left c then right_columns left right else c ∷ right_columns left right

-- `*optional`
abbrev pub value_of : Option Value → Outcome Value
value_of none = fail null_pointer
value_of (some v) = ok v

abbrev pub is_equal : Sign → Bool
is_equal less = false
is_equal equal = true
is_equal greater = false

-- The loop over the common columns. It goes on after a difference.
unfoldable pub is_match : Schema → Schema → Schema → Row → Row → Outcome Bool
unfolding extract_value comparator
is_match left right [] left_row right_row = ok true
is_match left right (c ∷ common) left_row right_row = do
  l ← extract_value left_row left c
  left_val ← value_of l
  r ← extract_value right_row right c
  right_val ← value_of r
  sign ← comparator (left_val ∷ []) (right_val ∷ []) []
  rest ← is_match left right common left_row right_row
  ok (is_equal sign && rest)

-- A value of the joined row: from the left row, or else from the right one.
unfoldable pub pick_value : Option Value → Outcome (Option Value) → Outcome Value
pick_value (some v) right = ok v
pick_value none right = do r ← right; value_of r

unfoldable pub join_row : Schema → Schema → Schema → Row → Row → Outcome Row
unfolding extract_value pick_value
join_row left right [] left_row right_row = ok []
join_row left right (c ∷ result) left_row right_row = do
  l ← extract_value left_row left c
  v ← pick_value l (extract_value right_row right c)
  row ← join_row left right result left_row right_row
  ok (v ∷ row)

abbrev pub result_columns : Schema → Schema → Schema
result_columns left right = left ++ right_columns left right

-- The body of the inner loop, in front of the rows of the later rounds.
unfoldable pub join_pair : Schema → Schema → Row → Row → Outcome (List Row)
unfolding is_match join_row common_columns right_columns
join_pair left right left_row right_row = do
  matched ← is_match left right (common_columns left right) left_row right_row
  let joined = (do
    row ← join_row left right (result_columns left right) left_row right_row
    ok (row ∷ []))
  if matched then joined else ok []

unfoldable pub join_with : Schema → Schema → Row → List Row → Outcome (List Row)
unfolding join_pair
join_with left right left_row [] = ok []
join_with left right left_row (right_row ∷ rows) = do
  first ← join_pair left right left_row right_row
  rest ← join_with left right left_row rows
  ok (first ++ rest)

unfoldable pub join_rows : Schema → Schema → List Row → List Row → Outcome (List Row)
unfolding join_with
join_rows left right [] right_rows = ok []
join_rows left right (left_row ∷ rows) right_rows = do
  first ← join_with left right left_row right_rows
  rest ← join_rows left right rows right_rows
  ok (first ++ rest)

-- The join of two row sets.
unfoldable pub join_sets : RowSet → RowSet → Outcome RowSet
unfolding join_rows right_columns
join_sets left right = do
  rows ← join_rows left.schema right.schema left.rows right.rows
  ok (record { schema = result_columns left.schema right.schema; rows = rows })

abbrev pub add_row : Row → List Row → List Row
add_row [] rows = rows
add_row (v ∷ row) rows = (v ∷ row) ∷ rows

-- The loop over one table, which skips the empty rows.
unfoldable pub scan_rows : ℕ → PageOps → Table → ScanIterator → ScanIterator → Outcome (List Row)
unfolding get_row next
scan_rows zero ops t last it = fail no_fuel
scan_rows (suc fuel) ops t last it =
    let visited = (do
      row ← get_row ops t (record { page_index = pos it.0; row_index = pos it.1 })
      it' ← next ops t it
      rows ← scan_rows fuel ops t last it'
      ok (add_row row rows)) in
    if it_eq it last then ok [] else visited

module _ (fs : FileSystem) where
  open fs use {Disk}

  -- The rows of one table, with its schema. A page has at most 4096 slots.
  unfoldable pub scan_table : FileName → Disk → Outcome RowSet
  unfolding scan_rows end
  scan_table name disk = do
    t ← get_table fs name none disk
    found ← find_table_schema fs name disk
    schema ← schema_of found
    last ← end t.provider t.table
    rows ← scan_rows (t.table.page_count * 4096) t.provider t.table last begin
    ok (record { schema = schema; rows = rows })

  -- The recursion of `executeJoin` on the last table is this loop from the first one on.
  unfoldable pub join_tables : RowSet → List FileName → Disk → Outcome RowSet
  unfolding scan_table join_sets
  join_tables left [] disk = ok left
  join_tables left (name ∷ names) disk = do
    right ← scan_table name disk
    both ← join_sets left right
    join_tables both names disk

  -- `executeJoin`
  unfoldable pub execute_join : List FileName → Disk → Outcome RowSet
  unfolding scan_table join_tables
  execute_join [] disk = fail assertion
  execute_join (name ∷ names) disk = do first ← scan_table name disk; join_tables first names disk
