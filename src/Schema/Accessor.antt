-- ===== src/Schema/Accessor.antt =====
-- lib/sql/accessors.cpp, `SchemaAccessor`: a schema with an index of its columns by name.
-- The `unordered_map` is the list of its assignments, the newest first: a name has the value that
-- was assigned last. What is thrown for a column that is missing, or there already, is a text.
mod Coherent
pub mod Refine
use relvec_db.Common.{
  ℕ, suc, ◌+◌, ◌≡◌, Bool, true, false, Option, none, some, List, [], ◌∷◌, ◌++◌, if◌then◌else◌,
  length, get_elem?,
}
use relvec_db.Common.Outcome.{Outcome, ok, fail, thrown_text, out_of_range, ◌>>=◌}
use relvec_db.Row.{ColumnSchema, Schema, bytes_eq}

pub record SchemaAccessor : Type 0 where
  pub schema : Schema
  pub column_name_to_index : List (List ℕ × ℕ)

-- `column_name_to_index.find`
unfoldable pub find_index : List ℕ → List (List ℕ × ℕ) → Option ℕ
unfolding bytes_eq
find_index name [] = none
find_index name ((key, index) ∷ entries) =
    if bytes_eq key name then some index else find_index name entries

-- The loop of the constructor, from a column and its index on.
unfoldable pub index_columns : ℕ → Schema → List (List ℕ × ℕ) → List (List ℕ × ℕ)
index_columns index [] entries = entries
index_columns index (column ∷ schema) entries =
    index_columns (index + 1) schema ((column.name, index) ∷ entries)

-- `SchemaAccessor()`
unfoldable pub empty_accessor : SchemaAccessor
empty_accessor = record { schema = []; column_name_to_index = [] }

-- `SchemaAccessor(std::shared_ptr<Schema>)`, of a schema that is there.
unfoldable pub new_accessor : Schema → SchemaAccessor
unfolding index_columns
new_accessor schema = record { schema = schema; column_name_to_index = index_columns 0 schema [] }

abbrev pub is_some : Option ℕ → Bool
is_some none = false
is_some (some index) = true

-- `hasColumn`
unfoldable pub has_column : SchemaAccessor → List ℕ → Bool
unfolding find_index
has_column a name = is_some (find_index name a.column_name_to_index)

-- `getColumnIndexOrNull`
unfoldable pub get_column_index_or_null : SchemaAccessor → List ℕ → Option ℕ
unfolding find_index
get_column_index_or_null a name = find_index name a.column_name_to_index

abbrev pub or_thrown : Option ℕ → Outcome ℕ
or_thrown none = fail thrown_text
or_thrown (some index) = ok index

-- `getColumnIndexOrThrow`
unfoldable pub get_column_index_or_throw : SchemaAccessor → List ℕ → Outcome ℕ
unfolding find_index
get_column_index_or_throw a name = or_thrown (find_index name a.column_name_to_index)

-- `(*schema)[index]`
abbrev pub column_at : Option ColumnSchema → Outcome ColumnSchema
column_at none = fail out_of_range
column_at (some column) = ok column

abbrev pub at_index : Schema → Option ℕ → Outcome (Option ColumnSchema)
at_index schema none = ok none
at_index schema (some index) = do column ← column_at (get_elem? schema index); ok (some column)

-- `getColumnOrNull`
unfoldable pub get_column_or_null : SchemaAccessor → List ℕ → Outcome (Option ColumnSchema)
unfolding get_column_index_or_null
get_column_or_null a name = at_index a.schema (get_column_index_or_null a name)

-- `getColumnOrThrow`
unfoldable pub get_column_or_throw : SchemaAccessor → List ℕ → Outcome ColumnSchema
unfolding get_column_index_or_throw
get_column_or_throw a name = do
  index ← get_column_index_or_throw a name
  column_at (get_elem? a.schema index)

-- `addColumn`
unfoldable pub add_column : ColumnSchema → SchemaAccessor → Outcome SchemaAccessor
unfolding has_column
add_column column a =
    if has_column a column.name
    then fail thrown_text
    else ok (record {
      schema = a.schema ++ column ∷ [];
      column_name_to_index = (column.name, length a.schema) ∷ a.column_name_to_index;
    })
