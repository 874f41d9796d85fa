-- ===== src/BTree/Conditions.antt =====
-- lib/sql/index.h, index.cpp: conditions on the columns of a key, and `isRowValid` of
-- lib/sql/btree.cpp, which tests a key against them.
use relvec_db.Common.{
  ℕ, suc, ◌≡◌, ◌↔◌, refl, ap, ◌∙◌, Bool, true, false, List, [], ◌∷◌, none, some, arith, get_elem?,
  if◌then◌else◌, All, inl, inr, not, Bool-cases,
}
use relvec_db.Common.Outcome.{Outcome, ok, fail, out_of_range, runtime_error, ◌>>=◌, >>=-eq-ok}
use relvec_db.Row.{ColumnType, ColumnSchema, Schema, Value, Row, bytes_eq}
use relvec_db.Comparator.{Sign, less, equal, greater, compare_rows}

pub data IndexComparator : Type 0 where
  is_equal not_equal greater_than greater_or_equal less_than less_or_equal : IndexComparator

pub record KeyCondition : Type 0 where
  pub column : ColumnSchema
  pub comparator : IndexComparator
  pub value : Value

-- `createEQCondition` and the five beside it.
abbrev pub create_condition : IndexComparator → ColumnSchema → Value → KeyCondition
create_condition o c v = record { column = c; comparator = o; value = v }

-- `hasVariableKeys`: the source answers false where a key column has the type string.
unfoldable pub has_variable_keys : Schema → Bool
has_variable_keys [] = true
has_variable_keys (c ∷ schema) = elim c.type [
  | ColumnType.string ↦ false
  | ColumnType.boolean ↦ has_variable_keys schema
  | ColumnType.uint64 ↦ has_variable_keys schema
  | ColumnType.int64 ↦ has_variable_keys schema
  | ColumnType.varchar ↦ has_variable_keys schema
  | ColumnType.vector ↦ has_variable_keys schema
]

-- The constructor of `IIndex`, for an index without variable keys, as the B-tree is.
unfoldable pub check_metadata : Schema → Outcome (Unit {0})
unfolding has_variable_keys
check_metadata schema = if not (has_variable_keys schema) then fail runtime_error else ok tt

-- The loop of `getIndexColumn`, from column `i` on.
unfoldable pub index_column_from : ℕ → Schema → List ℕ → Outcome ℕ
unfolding bytes_eq
index_column_from i [] name = fail runtime_error
index_column_from i (c ∷ schema) name =
    let rest = index_column_from (suc i) schema name in if bytes_eq c.name name then ok i else rest

-- `getIndexColumn`
unfoldable pub get_index_column : Schema → List ℕ → Outcome ℕ
unfolding index_column_from
get_index_column schema name = index_column_from 0 schema name

-- The six tests of the loop's body, on `compareRows({value}, {key[column]})`.
unfoldable pub passes : IndexComparator → Sign → Bool
passes is_equal s = elim s [ less ↦ false | equal ↦ true | greater ↦ false ]
passes not_equal s = elim s [ less ↦ true | equal ↦ false | greater ↦ true ]
passes greater_than s = elim s [ less ↦ true | equal ↦ false | greater ↦ false ]
passes greater_or_equal s = elim s [ less ↦ true | equal ↦ true | greater ↦ false ]
passes less_than s = elim s [ less ↦ false | equal ↦ false | greater ↦ true ]
passes less_or_equal s = elim s [ less ↦ false | equal ↦ true | greater ↦ true ]

-- One round of the loop. A column past the end of the key is a fault.
unfoldable pub is_condition_met : Schema → Row → KeyCondition → Outcome Bool
unfolding get_index_column passes
is_condition_met schema key p = do
  i ← get_index_column schema p.column.name
  v ← elim (get_elem? key i) [ none ↦ fail out_of_range | some v ↦ ok v ]
  c ← compare_rows (p.value ∷ []) (v ∷ [])
  ok (passes p.comparator c)

-- `isRowValid`
unfoldable pub is_row_valid : Schema → List KeyCondition → Row → Outcome Bool
unfolding is_condition_met
is_row_valid schema [] key = ok true
is_row_valid schema (p ∷ ps) key = do
  met ← is_condition_met schema key p
  let rest = is_row_valid schema ps key
  if met then rest else ok false

-- A key is valid exactly if each of the conditions is met.
pub is_row_valid-All :
    (schema : Schema) (ps : List KeyCondition) (key : Row)
    → (is_row_valid schema ps key ≡ ok true) ↔ All (λ p. is_condition_met schema key p ≡ ok true) ps
unfolding is_row_valid
is_row_valid-All schema [] key = ((λ h. tt), (λ h. refl))
is_row_valid-All schema (p ∷ ps) key =
    let (to, from) = is_row_valid-All schema ps key in
    (
      (λ h.
          let (met, em, er) = >>=-eq-ok (is_condition_met schema key p) _ h in
          elim (Bool-cases met) [
            | inl b ↦
                let er' : is_row_valid schema ps key ≡ ok true = ground (arith, er, b) in
                (em ∙ ap ok b, to er')
            | inr b ↦ absurd (ground (arith, er, b))
          ]),
      (λ (h, hs). rw h (from hs)),
    )
