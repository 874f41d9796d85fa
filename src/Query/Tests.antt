-- ===== src/Query/Tests.antt =====
-- Runs of queries, and their theorems at concrete inputs.
use relvec_db.Common.{
  ℕ, ◌≡◌, refl, inl, inr, [], ◌∷◌, none, some, List, Option, if◌then◌else◌, true, false, All,
  Bool-cases,
}
use relvec_db.Common.Int.{pos}
use relvec_db.Common.Outcome.{ok, fail, arithmetic}
use relvec_db.Common.Texts.{bytes}
use relvec_db.Comparator.{comparator, compare_ℤ}
use relvec_db.Row.{Schema, ColumnSchema, ColumnType, Row, int64, string, boolean, bytes_eq}
use relvec_db.Query.{
  Expr, number, text, binary_operator, minus, gt, div, Variables, find_variable, execute_some_ast,
}
use relvec_db.Query.Typing.{
  Context, integer, truth, a_number, a_name, an_operation, an_integer, IsVariable, Evaluates,
  execute_some_ast-Evaluates,
}
use relvec_db.Query.Join.{join_rows, common_columns}
use relvec_db.Query.Join.Sound.{IsOfPair, IsIn}
use relvec_db.Query.Join.Columns.{value_at}
use relvec_db.Query.Join.Pair.{IsJoined}
use relvec_db.Query.Join.Total.{join_rows_total}
use relvec_db.Query.Join.Complete.{join_rows-Found}
use relvec_db.Query.Select.{select_rows}
use relvec_db.Query.Select.Independent.{
  select_each, rows_of, SameOutside, named, select_rows-select_each,
}

abbrev age : List ℕ
age = bytes "age"

abbrev variables : Variables
variables = (age, int64 (pos 30)) ∷ []

-- age - 1 > 18
abbrev grown_up : Expr
grown_up = binary_operator gt (binary_operator minus (text age) (number (pos 1))) (number (pos 18))

grown_up_run : execute_some_ast variables false grown_up ≡ ok (boolean true)
unfolding execute_some_ast
grown_up_run = refl

division_run :
    execute_some_ast variables false (binary_operator div (text age) (number (pos 0)))
    ≡ fail arithmetic
unfolding execute_some_ast
division_run = refl

-- A text that is the name of a variable is not the text.
shadowed_run : execute_some_ast variables false (text age) ≡ ok (int64 (pos 30))
unfolding execute_some_ast
shadowed_run = refl

abbrev names : Context
names s = if bytes_eq age s then some integer else none

names_agree : (s : List ℕ) → IsVariable (names s) (find_variable s variables)
unfolding find_variable
names_agree s = elim (Bool-cases (bytes_eq age s)) [
  | inl same ↦ rw same (an_integer (pos 30))
  | inr apart ↦ rw apart tt
]

execute_some_ast-Evaluates_example : Evaluates truth (execute_some_ast variables false grown_up)
unfolding bytes_eq
execute_some_ast-Evaluates_example = execute_some_ast-Evaluates names variables names_agree (
    an_operation gt refl (an_operation minus refl (a_name age refl) (a_number (pos 1)))
      (a_number (pos 18)))

abbrev column : List ℕ → ColumnType → ColumnSchema
column name type = record { name = name; type = type; len = 0 }

abbrev id_column : ColumnSchema
id_column = column (bytes "id") ColumnType.int64

abbrev people : Schema
people = id_column ∷ column (bytes "name") ColumnType.string ∷ []

abbrev ages : Schema
ages = column age ColumnType.int64 ∷ id_column ∷ []

abbrev people_rows : List Row
people_rows =
    (int64 (pos 1) ∷ string (bytes "ann") ∷ []) ∷ (int64 (pos 2) ∷ string (bytes "bob") ∷ []) ∷ []

abbrev ages_rows : List Row
ages_rows = (int64 (pos 40) ∷ int64 (pos 2) ∷ []) ∷ (int64 (pos 17) ∷ int64 (pos 3) ∷ []) ∷ []

abbrev joined : List Row
joined = (int64 (pos 2) ∷ string (bytes "bob") ∷ int64 (pos 40) ∷ []) ∷ []

join_run : join_rows people ages people_rows ages_rows ≡ ok joined
unfolding join_rows comparator compare_ℤ
join_run = refl

join_rows_total_example :
    (rows : List Row) × (join_rows people ages people_rows ages_rows ≡ ok rows)
    × All (IsOfPair people ages people_rows ages_rows) rows
unfolding common_columns value_at
join_rows_total_example =
    join_rows_total people ages people_rows ages_rows (refl, (refl, tt)) (refl, (refl, tt))
      (((tt, tt), ((tt, tt), tt)), (((tt, tt), ((tt, tt), tt)), tt))

join_rows-Found_example :
    (row : Row) × IsIn row joined
    × IsJoined people ages
        (int64 (pos 2) ∷ string (bytes "bob") ∷ [])
        (int64 (pos 40) ∷ int64 (pos 2) ∷ [])
        row
unfolding common_columns value_at
join_rows-Found_example =
    join_rows-Found people ages (int64 (pos 2) ∷ string (bytes "bob") ∷ [])
      (int64 (pos 40) ∷ int64 (pos 2) ∷ []) refl refl (refl, tt) people_rows ages_rows
      (inr (inl refl)) (inl refl) join_run

abbrev adults : Option Expr
adults = some (binary_operator gt (text age) (number (pos 18)))

select_run :
    rows_of (select_rows ages (some (text (bytes "id") ∷ [])) adults ages_rows [])
    ≡ ok ((int64 (pos 2) ∷ []) ∷ [])
unfolding select_rows
select_run = refl

age_outside : SameOutside ages variables []
unfolding find_variable named
age_outside name h = elim (Bool-cases (bytes_eq age name)) [
  | inl same ↦ cc (rw same at h)
  | inr apart ↦ rw apart refl
]

select_rows-select_each_example :
    rows_of (select_rows ages none adults ages_rows variables)
    ≡ select_each ages none adults ages_rows []
select_rows-select_each_example =
    select_rows-select_each ages none adults ages_rows variables [] (refl, (refl, tt)) age_outside
