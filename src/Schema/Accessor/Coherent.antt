-- ===== src/Schema/Accessor/Coherent.antt =====
-- lib/sql/accessors.cpp: what the index of a `SchemaAccessor` says of its schema.
use relvec_db.Common.{
  ℕ, ◌+◌, ◌≡◌, refl, ap, sym, ◌∙◌, arith, inl, inr, Bool-cases, Option, none, some, List, [], ◌∷◌,
  ◌++◌, if◌then◌else◌, length,
}
use relvec_db.Common.Outcome.{Outcome, ok}
use relvec_db.Row.{ColumnSchema, Schema, bytes_eq}
use relvec_db.Schema.Accessor.{
  SchemaAccessor, find_index, index_columns, new_accessor, has_column, get_column_index_or_null,
  add_column,
}

-- The index of the last column of that name, of columns that stand behind `index` others.
unfoldable pub last_index : ℕ → List ℕ → Schema → Option ℕ → Option ℕ
last_index index name [] found = found
last_index index name (column ∷ schema) found =
    last_index (index + 1) name schema (if bytes_eq column.name name then some index else found)

abbrev pub last_column : List ℕ → Schema → Option ℕ
last_column name schema = last_index 0 name schema none

find_index-index_columns :
    (index : ℕ) (schema : Schema) (entries : List (List ℕ × ℕ)) (name : List ℕ)
    → find_index name (index_columns index schema entries)
      ≡ last_index index name schema (find_index name entries)
unfolding index_columns last_index
find_index-index_columns index [] entries name = refl
find_index-index_columns index (column ∷ schema) entries name =
    find_index-index_columns (index + 1) schema ((column.name, index) ∷ entries) name
    ∙ unfold find_index in refl

last_index-append :
    (index : ℕ) (name : List ℕ) (schema : Schema) (column : ColumnSchema) (found : Option ℕ)
    → last_index index name (schema ++ column ∷ []) found ≡ (
        if bytes_eq column.name name
        then some (index + length schema)
        else last_index index name schema found)
unfolding last_index
last_index-append index name [] column found =
    ap (λ n. if bytes_eq column.name name then some n else found) (omega arith)
last_index-append index name (first ∷ schema) column found =
    last_index-append (index + 1) name schema column _
    ∙ ap
        (λ n.
          if bytes_eq column.name name
          then some n
          else last_index (index + 1) name schema
              (if bytes_eq first.name name then some index else found))
        (omega arith)

-- The index has the last column of each name, and no other name.
abbrev pub IsCoherent : SchemaAccessor → Type 0
IsCoherent a = (name : List ℕ) → get_column_index_or_null a name ≡ last_column name a.schema

pub new_accessor-IsCoherent : (schema : Schema) → IsCoherent (new_accessor schema)
unfolding new_accessor get_column_index_or_null
new_accessor-IsCoherent schema name =
    find_index-index_columns 0 schema [] name ∙ unfold find_index in refl

ok-eq-ok : {a b : SchemaAccessor} → Outcome.ok a ≡ ok b → a ≡ b
ok-eq-ok e = cc

pub add_column-IsCoherent :
    (column : ColumnSchema) (a : SchemaAccessor) {b : SchemaAccessor}
    → IsCoherent a
    → add_column column a ≡ ok b
    → IsCoherent b
unfolding add_column
add_column-IsCoherent column a {b} h e = elim (Bool-cases (has_column a column.name)) [
  | inl there ↦ cc (rw there at e)
  | inr new ↦ rw (← ok-eq-ok (rw new at e)) (λ name.
      unfold get_column_index_or_null find_index in
      ap (λ o. if bytes_eq column.name name then some (length a.schema) else o)
        (unfold get_column_index_or_null in h name)
      ∙ ap (λ n. if bytes_eq column.name name then some n else last_column name a.schema)
          (omega arith)
      ∙ sym (last_index-append 0 name a.schema column none))
]
