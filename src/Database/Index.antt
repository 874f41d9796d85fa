-- ===== src/Database/Index.antt =====
-- lib/sql/database.cpp: `getIndex` after `createIndex`.
use relvec_db.Common.{ℕ, ◌≤◌, length, some, ◌≡◌, ◌≢◌, refl, none, List, [], ◌∷◌, ◌++◌, false}
use relvec_db.Common.Outcome.{Outcome, ok, fail}
use relvec_db.Row.{ColumnSchema, Schema}
use relvec_db.Table.{Table}
use relvec_db.Store.{FileName, FileSystem, write_back}
use relvec_db.Store.Paths.{image-put_self}
use relvec_db.Catalog.{scheme_name, find_table_schema}
use relvec_db.Catalog.Rows.{IsSaved}
use relvec_db.Database.Marshals.{new_index_metadata_total, All-append_front}
use relvec_db.Catalog.RoundTrip.{
  IsStorable, saved_disk, saved_table, dumped, find_table_schema-image, save_table_schema-new,
}
use relvec_db.Database.{
  Saved, IndexType, IndexMetadata, new_index_metadata, type_column, with_index, is_empty,
  split_last, find_type, create_index, get_index,
}

-- The last column of a schema, behind those before it.
split_last-append :
    (schema : Schema) (column : ColumnSchema)
    → split_last (schema ++ column ∷ []) ≡ ok (schema, column)
unfolding split_last
split_last-append [] column = refl
split_last-append (c ∷ []) column = refl
split_last-append (c ∷ d ∷ schema) column = rw (split_last-append (d ∷ schema) column) refl

not_empty : (schema : Schema) → schema ≢ [] → is_empty schema ≡ false
not_empty [] h = absurd (h refl)
not_empty (column ∷ schema) h = refl

module _ (fs : FileSystem) (Handle : Type 0) where
  open fs use {Disk, image, put}

  with_index-scheme :
      (disk : Disk) (t : Table) (o : Outcome (Handle × Disk))
      → (with_index fs Handle disk t o).scheme ≡ t
  with_index-scheme disk t (fail fault) = refl
  with_index-scheme disk t (ok (handle, disk')) = refl

  -- For a name without a scheme file, a key schema that is not empty, has at most 64 columns and
  -- that one page of a scheme table holds together with a column for the type, and a registered
  -- type, `createIndex` calls the callback of the type with the metadata of the name and the key
  -- schema, on a disk where `findTableSchema` returns the key schema with the column for the type
  -- once the frames of the scheme table are dumped. `getIndex` calls the same callback with the
  -- same metadata once the frames of the scheme table are dumped.
  pub get_index-create_index :
      (types : List (IndexType fs Handle)) (name : FileName) (key_schema : Schema) (type : List ℕ)
      (disk : Disk) (callbacks : IndexType fs Handle)
      → image disk (scheme_name name) ≡ none
      → key_schema ≢ []
      → IsStorable (key_schema ++ type_column type ∷ [])
      → length key_schema ≤ 64
      → find_type fs Handle type types ≡ ok callbacks
      → (c : Saved Disk Handle) × (disk' : Disk) × (metadata : IndexMetadata) × (create_index fs
            Handle types name key_schema type disk
          ≡ ok c)
        × (new_index_metadata name key_schema ≡ ok metadata)
        × (find_table_schema fs name (write_back fs (scheme_name name) c.scheme disk')
            ≡ ok (some (key_schema ++ type_column type ∷ [])))
        × (c ≡ with_index fs Handle disk' c.scheme (callbacks.on_create metadata disk'))
        × (get_index fs Handle types name (write_back fs (scheme_name name) c.scheme c.disk)
            ≡ callbacks.on_create metadata (write_back fs (scheme_name name) c.scheme c.disk))
  unfolding create_index get_index write_back
  get_index-create_index types name key_schema type disk callbacks absent ne s few found =
      let columns = key_schema ++ type_column type ∷ [] in
      let (t, e, read) = saved_table columns s in
      let (metadata, em, _, _) =
        new_index_metadata_total name key_schema
          (All-append_front IsSaved key_schema (type_column type ∷ []) s.columns) few in
      let disk' = saved_disk fs name t disk in
      let c = with_index fs Handle disk' t (callbacks.on_create metadata disk') in
      let same : c.scheme ≡ t = with_index-scheme disk' t (callbacks.on_create metadata disk') in
      let seen : (d : Disk)
          → find_table_schema fs name (put (scheme_name name) (dumped t) d) ≡ ok (some columns) =
        λ d.
          find_table_schema-image fs name (put (scheme_name name) (dumped t) d) (dumped t)
            (image-put_self fs (scheme_name name) (dumped t) d) read in
      (
        c,
        disk',
        metadata,
        rw (not_empty key_schema ne)
            (rw (save_table_schema-new fs name columns disk absent e) (rw em (rw found refl))),
        em,
        rw same (seen disk'),
        rw same refl,
        rw same (
            rw (seen c.disk)
              (rw (split_last-append key_schema (type_column type)) (rw em (rw found refl)))),
      )
