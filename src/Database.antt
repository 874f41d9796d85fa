-- ===== src/Database.antt =====
-- lib/sql/database.cpp, `Database`, on the disk of its store.
-- What an operation returns or throws stands beside the disk, since the schema is saved before the
-- checks that may throw. A fault of `saveTableSchema` itself is an endless loop or undefined.
pub mod Marshals
pub mod Create
pub mod Drop
pub mod Index
mod Tests
use relvec_db.Common.{
  ℕ, suc, ◌+◌, Bool, true, false, ◌||◌, ◌≡◌, Option, none, some, List, [], ◌∷◌, ◌++◌, if◌then◌else◌,
}
use relvec_db.Common.Outcome.{Outcome, ok, fail, runtime_error, null_pointer, out_of_range, ◌>>=◌}
use relvec_db.Row.{ColumnType, ColumnSchema, Schema, bytes_eq}
use relvec_db.Marshal.{new_marshal}
use relvec_db.Table.{Table, PageOps, fixed_page, flexible_page}
use relvec_db.Store.{
  FileName, FileSystem, check_table_exists, create_and_open_table, open_table, remove_table,
}
use relvec_db.Catalog.{save_table_schema, find_table_schema, forget_table_schema}

abbrev pub is_string : ColumnType → Bool
is_string ColumnType.string = true
is_string ColumnType.boolean = false
is_string ColumnType.uint64 = false
is_string ColumnType.int64 = false
is_string ColumnType.varchar = false
is_string ColumnType.vector = false

unfoldable pub has_string : Schema → Bool
has_string [] = false
has_string (column ∷ schema) = is_string column.type || has_string schema

-- The pages of the provider for a schema.
unfoldable pub provider_pages : Schema → PageOps
unfolding has_string
provider_pages schema = if has_string schema then flexible_page schema else fixed_page schema

-- `createPageProvider`: both providers construct a marshal of the schema.
unfoldable pub create_page_provider : Schema → Outcome PageOps
unfolding provider_pages new_marshal
create_page_provider schema = do fixed_row_space ← new_marshal schema; ok (provider_pages schema)

-- A table with the page provider that it was opened with.
pub record OpenTable : Type 0 where
  pub provider : PageOps
  pub table : Table

-- What is there after a schema was saved: the disk, the table that the schema was saved through,
-- whose frames are still to be dumped, and what the operation returned or threw.
pub record Saved (Disk : Type 0) (R : Type 0) : Type 0 where
  pub disk : Disk
  pub scheme : Table
  pub result : Outcome R

abbrev pub schema_of : Option Schema → Outcome Schema
schema_of none = fail null_pointer
schema_of (some schema) = ok schema

-- `index_schema->back()` and `pop_back()`: the last column and those before it.
unfoldable pub split_last : Schema → Outcome (Schema × ColumnSchema)
split_last [] = fail out_of_range
split_last (column ∷ []) = ok ([], column)
split_last (column ∷ next ∷ schema) = do
  (front, last) ← split_last (next ∷ schema)
  ok (column ∷ front, last)

-- The column that keeps the type of an index.
abbrev pub type_column : List ℕ → ColumnSchema
type_column type = record { name = type; type = ColumnType.uint64; len = 0 }

abbrev pub is_empty : Schema → Bool
is_empty [] = true
is_empty (column ∷ schema) = false

abbrev pub index_schema_of : Option Schema → Outcome Schema
index_schema_of none = fail runtime_error
index_schema_of (some schema) = ok schema

-- `IndexMetadata`: the name of an index, the schema of its keys, and the fixed row space of the marshal
-- of that schema.
pub record IndexMetadata : Type 0 where
  pub index_name : FileName
  pub key_schema : Schema
  pub key_size : ℕ

-- Its constructor.
unfoldable pub new_index_metadata : FileName → Schema → Outcome IndexMetadata
unfolding new_marshal
new_index_metadata name key_schema = do
  key_size ← new_marshal key_schema
  ok (record { index_name = name; key_schema = key_schema; key_size = key_size })

module _ (fs : FileSystem) where
  open fs use {Disk, image}

  abbrev pub with_table : Disk → Table → Outcome (OpenTable × Disk) → Saved Disk OpenTable
  with_table disk scheme (fail fault) = record { disk = disk; scheme = scheme; result = fail fault }
  with_table disk scheme (ok (t, disk')) = record { disk = disk'; scheme = scheme; result = ok t }

  -- `createTable`
  unfoldable pub create_table : FileName → Schema → Disk → Outcome (Saved Disk OpenTable)
  create_table name schema disk = do
    (scheme, disk') ← save_table_schema fs name schema disk
    ok (
        with_table disk' scheme (do
          provider ← create_page_provider schema
          (t, disk'') ← create_and_open_table fs name disk'
          ok (record { provider = provider; table = t }, disk'')))

  -- `getTable`, with a schema or with the null pointer.
  unfoldable pub get_table : FileName → Option Schema → Disk → Outcome OpenTable
  get_table name given disk = do
    found ← elim given [ none ↦ find_table_schema fs name disk | some s ↦ ok (some s) ]
    schema ← schema_of found
    provider ← create_page_provider schema
    t ← open_table fs name disk
    ok (record { provider = provider; table = t })

  -- `dropTable`
  unfoldable pub drop_table : FileName → Disk → Disk
  drop_table name disk = (remove_table fs name (forget_table_schema fs name disk)).1

  -- The callbacks of an index type.
  pub record IndexType (Handle : Type 0) : Type 0 where
    pub type_name : List ℕ
    pub on_create : IndexMetadata → Disk → Outcome (Handle × Disk)
    pub on_drop : IndexMetadata → Disk → Outcome Disk

  module _ (Handle : Type 0) where
    -- `index_type_to_callbacks.find`
    unfoldable pub find_type : List ℕ → List (IndexType Handle) → Outcome (IndexType Handle)
    find_type name [] = fail runtime_error
    find_type name (type ∷ types) =
        if bytes_eq type.type_name name then ok type else find_type name types

    -- `registerIndex`: `emplace` leaves a type that is registered already.
    unfoldable pub register_index :
        IndexType Handle → List (IndexType Handle) → List (IndexType Handle)
    register_index type types = types ++ type ∷ []

    abbrev pub with_index : Disk → Table → Outcome (Handle × Disk) → Saved Disk Handle
    with_index disk scheme (fail fault) = record {
      disk = disk;
      scheme = scheme;
      result = fail fault;
    }
    with_index disk scheme (ok (handle, disk')) = record {
      disk = disk';
      scheme = scheme;
      result = ok handle;
    }

    -- `createIndex`
    unfoldable pub create_index :
        List (IndexType Handle) → FileName → Schema → List ℕ → Disk → Outcome (Saved Disk Handle)
    create_index types name key_schema type disk =
        let saved = (do
          (scheme, disk') ← save_table_schema fs name (key_schema ++ type_column type ∷ []) disk
          ok (
              with_index disk' scheme (do
                metadata ← new_index_metadata name key_schema
                t ← find_type type types
                t.on_create metadata disk'))) in
        if is_empty key_schema then fail runtime_error else saved

    -- `getIndex`
    unfoldable pub get_index : List (IndexType Handle) → FileName → Disk → Outcome (Handle × Disk)
    get_index types name disk = do
      found ← find_table_schema fs name disk
      index_schema ← index_schema_of found
      (key_schema, last) ← split_last index_schema
      metadata ← new_index_metadata name key_schema
      t ← find_type last.name types
      t.on_create metadata disk

    -- `dropIndex`, from the point where the index schema was found and is forgotten. The disk stands
    -- beside what was thrown.
    unfoldable pub drop_found :
        List (IndexType Handle) → FileName → Schema → Disk → Disk × Outcome Disk
    drop_found types name index_schema disk = (
      disk,
      do
        (key_schema, last) ← split_last index_schema
        metadata ← new_index_metadata name key_schema
        t ← find_type last.name types
        t.on_drop metadata disk,
    )

    -- `dropIndex`
    unfoldable pub drop_index :
        List (IndexType Handle) → FileName → Disk → Outcome (Disk × Outcome Disk)
    unfolding drop_found
    drop_index types name disk = do
      found ← find_table_schema fs name disk
      index_schema ← index_schema_of found
      ok (drop_found types name index_schema (forget_table_schema fs name disk))
