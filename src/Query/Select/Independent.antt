-- ===== src/Query/Select/Independent.antt =====
-- lib/sql/interpreter.cpp, `executeSelect`: each row is selected as if it were the only one.
use relvec_db.Common.{
  ℕ, ◌≡◌, refl, ap, ◌∙◌, inl, inr, Bool, true, false, Bool-cases, Option, none, some, List, [], ◌∷◌,
  if◌then◌else◌, length, All, arith,
}
use relvec_db.Common.Outcome.{Outcome, ok, fail, ◌>>=◌}
use relvec_db.Row.{ColumnSchema, Schema, Value, Row, bytes_eq}
use relvec_db.Query.{
  Expr, identifier, number, text, binary_operator, unary_operator, function, order, Variables,
  find_variable, execute_some_ast, text_or_variable,
}
use relvec_db.Query.Select.{
  assign_columns, execute_all, project, passes_filter, select_row, is_empty, add_rows, select_rows,
}

-- The same value under each name.
abbrev Same : Variables → Variables → Type 0
Same a b = (name : List ℕ) → find_variable name a ≡ find_variable name b

module _ (a b : Variables) (same : Same a b) where
  execute_some_ast-Same : (e : Expr) → execute_some_ast a false e ≡ execute_some_ast b false e
  unfolding execute_some_ast
  execute_some_ast-Same (number z) = refl
  execute_some_ast-Same (text s) = ap (λ o. ok (text_or_variable false s o)) (same s)
  execute_some_ast-Same (binary_operator code l r) =
      rw (execute_some_ast-Same l, execute_some_ast-Same r) refl
  execute_some_ast-Same (identifier name) = refl
  execute_some_ast-Same (unary_operator code e) = refl
  execute_some_ast-Same (function name arguments) = refl
  execute_some_ast-Same (order e desc) = refl

  execute_all-Same : (exprs : List Expr) → execute_all a exprs ≡ execute_all b exprs
  unfolding execute_all
  execute_all-Same [] = refl
  execute_all-Same (e ∷ exprs) = rw (execute_some_ast-Same e, execute_all-Same exprs) refl

  project-Same :
      (projection : Option (List Expr)) (row : Row)
      → project a projection row ≡ project b projection row
  unfolding project
  project-Same none row = refl
  project-Same (some exprs) row = execute_all-Same exprs

  passes_filter-Same : (filter : Option Expr) → passes_filter a filter ≡ passes_filter b filter
  unfolding passes_filter
  passes_filter-Same none = refl
  passes_filter-Same (some e) = rw (execute_some_ast-Same e) refl

  select_row-Same :
      (projection : Option (List Expr)) (filter : Option Expr) (row : Row)
      → select_row a projection filter row ≡ select_row b projection filter row
  unfolding select_row
  select_row-Same projection filter row =
      rw (project-Same projection row, passes_filter-Same filter) refl

-- A column of the schema has the name.
unfoldable pub named : Schema → List ℕ → Bool
named [] name = false
named (c ∷ schema) name = if bytes_eq c.name name then true else named schema name

-- The same value under each name that is not of a column.
abbrev pub SameOutside : Schema → Variables → Variables → Type 0
SameOutside schema a b =
    (name : List ℕ) → named schema name ≡ false → find_variable name a ≡ find_variable name b

-- An assignment to the first column.
SameOutside-assign :
    (c : ColumnSchema) (schema : Schema) (v : Value) (a b : Variables)
    → SameOutside (c ∷ schema) a b
    → SameOutside schema ((c.name, v) ∷ a) ((c.name, v) ∷ b)
unfolding named find_variable
SameOutside-assign c schema v a b h name outside = elim (Bool-cases (bytes_eq c.name name)) [
  | inl same ↦ rw same refl
  | inr apart ↦ rw apart (h name (rw apart outside))
]

assign_columns-Same :
    (schema : Schema) (row : Row) (a b : Variables)
    → length row ≡ length schema
    → SameOutside schema a b
    → (a' : Variables) × (b' : Variables) × (assign_columns schema row a ≡ ok a')
      × (assign_columns schema row b ≡ ok b')
      × Same a' b'
unfolding assign_columns named
assign_columns-Same [] row a b e h = (a, b, refl, refl, λ name. h name refl)
assign_columns-Same (c ∷ schema) [] a b e h = absurd (omega (arith, e))
assign_columns-Same (c ∷ schema) (v ∷ row) a b e h =
    assign_columns-Same schema row ((c.name, v) ∷ a) ((c.name, v) ∷ b) (omega (arith, e))
      (SameOutside-assign c schema v a b h)

-- The names that are not of a column keep their values.
assign_columns-outside :
    (schema : Schema) (row : Row) (a : Variables) {a' : Variables}
    → assign_columns schema row a ≡ ok a'
    → SameOutside schema a' a
unfolding assign_columns named find_variable
assign_columns-outside [] row a e name outside = ap (find_variable name) (ground (arith, e))
assign_columns-outside (c ∷ schema) [] a e name outside = cc
assign_columns-outside (c ∷ schema) (v ∷ row) a e name outside =
    elim (Bool-cases (bytes_eq c.name name)) [
      | inl same ↦ cc (rw same at outside)
      | inr apart ↦
          assign_columns-outside schema row ((c.name, v) ∷ a) e name (rw apart at outside)
          ∙ rw apart refl
    ]

-- The answer without the variables.
abbrev pub rows_of : Outcome (List Row × Variables) → Outcome (List Row)
rows_of (fail fault) = fail fault
rows_of (ok (rows, variables)) = ok rows

module _ (schema : Schema) (projection : Option (List Expr)) (filter : Option Expr) where
  -- The answer where each row is selected with the variables as they were at first.
  unfoldable pub select_each : List Row → Variables → Outcome (List Row)
  select_each [] variables = ok []
  select_each (row ∷ rows) variables =
      let skipped = select_each rows variables in
      let selected = (do
        variables' ← assign_columns schema row variables
        added ← select_row variables' projection filter row
        answer ← select_each rows variables
        ok (add_rows added answer)) in
      if is_empty row then skipped else selected

  add-rows_of :
      (added : Outcome (List Row)) (rest : Outcome (List Row × Variables))
      {answer : Outcome (List Row)}
      → rows_of rest ≡ answer
      → rows_of (added >>= λ rows. rest >>= λ (more, last). ok (add_rows rows more, last))
        ≡ (added >>= λ rows. answer >>= λ more. ok (add_rows rows more))
  add-rows_of (fail fault) rest e = refl
  add-rows_of (ok rows) (fail fault) e = rw (← e) refl
  add-rows_of (ok rows) (ok (more, last)) e = rw (← e) refl

  -- For rows of the length of the schema, a selection answers, or fails with the fault of, the
  -- selection in which each row is projected and filtered with the variables as they were at
  -- first. These may differ from those that the selection starts with in the names of columns, so
  -- what earlier rows and queries assigned to those names does not matter.
  pub select_rows-select_each :
      (rows : List Row) (a b : Variables)
      → All (λ row. length row ≡ length schema) rows
      → SameOutside schema a b
      → rows_of (select_rows schema projection filter rows a) ≡ select_each rows b
  unfolding select_rows select_each
  select_rows-select_each [] a b h s = refl
  select_rows-select_each (row ∷ rows) a b h s = elim (Bool-cases (is_empty row)) [
    | inl no_values ↦ rw no_values (select_rows-select_each rows a b h.1 s)
    | inr values ↦
        let (a', b', ea, eb, same) = assign_columns-Same schema row a b h.0 s in
        let rest =
          select_rows-select_each rows a' b h.1 (λ name outside.
            assign_columns-outside schema row a ea name outside ∙ s name outside) in
        rw (values, ea, eb)
          (rw (select_row-Same a' b' same projection filter row) (
            add-rows_of (select_row b' projection filter row)
              (select_rows schema projection filter rows a') rest))
  ]
