-- ===== src/Query/Select.antt =====
-- lib/sql/interpreter.cpp: `executeSelect` up to its sorting, and the other queries.
pub mod Independent
use relvec_db.Common.{ℕ, suc, Bool, true, false, Option, none, some, List, [], ◌∷◌, if◌then◌else◌}
use relvec_db.Common.Outcome.{Outcome, ok, fail, out_of_range, bad_variant, ◌>>=◌}
use relvec_db.Row.{ColumnSchema, Schema, Value, boolean, Row, RowId}
use relvec_db.Table.{Table, insert_row}
use relvec_db.Store.{FileName, FileSystem}
use relvec_db.Database.{OpenTable, Saved, create_table, get_table, drop_table}
use relvec_db.Query.{Expr, Variables, execute_some_ast}
use relvec_db.Query.Join.{RowSet, execute_join}

-- The loop that assigns the values of a row to the names of its columns.
unfoldable pub assign_columns : Schema → Row → Variables → Outcome Variables
assign_columns [] row variables = ok variables
assign_columns (c ∷ schema) [] variables = fail out_of_range
assign_columns (c ∷ schema) (v ∷ row) variables =
    assign_columns schema row ((c.name, v) ∷ variables)

-- The values of a list of expressions.
unfoldable pub execute_all : Variables → List Expr → Outcome Row
unfolding execute_some_ast
execute_all variables [] = ok []
execute_all variables (e ∷ exprs) = do
  v ← execute_some_ast variables false e
  row ← execute_all variables exprs
  ok (v ∷ row)

-- `modifiedRow`, where there is a projection.
unfoldable pub project : Variables → Option (List Expr) → Row → Outcome Row
unfolding execute_all
project variables none row = ok row
project variables (some exprs) row = execute_all variables exprs

-- `std::get<bool>`
abbrev pub bool_of : Value → Outcome Bool
bool_of (boolean b) = ok b
bool_of v = fail bad_variant

unfoldable pub passes_filter : Variables → Option Expr → Outcome Bool
unfolding execute_some_ast
passes_filter variables none = ok true
passes_filter variables (some e) = do v ← execute_some_ast variables false e; bool_of v

-- What a row adds to the answer. The projection is computed before the filter.
unfoldable pub select_row : Variables → Option (List Expr) → Option Expr → Row → Outcome (List Row)
unfolding project passes_filter
select_row variables projection filter row = do
  modified_row ← project variables projection row
  keep ← passes_filter variables filter
  ok (if keep then modified_row ∷ [] else [])

abbrev pub is_empty : Row → Bool
is_empty [] = true
is_empty (v ∷ row) = false

abbrev pub add_rows : List Row → List Row → List Row
add_rows [] rows = rows
add_rows (row ∷ more) rows = row ∷ add_rows more rows

-- The loop over the rows: the answer, and the variables, which stay assigned.
unfoldable pub select_rows :
    Schema
    → Option (List Expr)
    → Option Expr
    → List Row
    → Variables
    → Outcome (List Row × Variables)
unfolding assign_columns select_row
select_rows schema projection filter [] variables = ok ([], variables)
select_rows schema projection filter (row ∷ rows) variables =
    let skipped = select_rows schema projection filter rows variables in
    let selected = (do
      variables' ← assign_columns schema row variables
      added ← select_row variables' projection filter row
      (answer, last) ← select_rows schema projection filter rows variables'
      ok (add_rows added answer, last)) in
    if is_empty row then skipped else selected

module _ (fs : FileSystem) where
  open fs use {Disk}

  -- `executeSelect` of a query without an order.
  unfoldable pub execute_select :
      List FileName
      → Option (List Expr)
      → Option Expr
      → Variables
      → Disk
      → Outcome (List Row × Variables)
  unfolding execute_join select_rows
  execute_select from projection filter variables disk = do
    start ← execute_join fs from disk
    select_rows start.schema projection filter start.rows variables

  -- `executeInsert`: the row id, and the open table with the row.
  unfoldable pub execute_insert : FileName → List Expr → Variables → Disk → Outcome (RowId × Table)
  unfolding execute_all get_table insert_row
  execute_insert name values variables disk = do
    row ← execute_all variables values
    t ← get_table fs name none disk
    insert_row (suc t.table.page_count) t.provider row t.table

  -- `executeCreate` and `executeDrop`
  unfoldable pub execute_create : FileName → Schema → Disk → Outcome (Saved Disk OpenTable)
  unfolding create_table
  execute_create name schema disk = create_table fs name schema disk

  unfoldable pub execute_drop : FileName → Disk → Disk
  unfolding drop_table
  execute_drop name disk = drop_table fs name disk
