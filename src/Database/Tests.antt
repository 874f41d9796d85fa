-- ===== src/Database/Tests.antt =====
-- Runs of a database, and its theorems at concrete inputs.
use relvec_db.Common.{◌≡◌, refl, [], ◌∷◌, ◌++◌, ◌||◌, none, some, Option, arith, if◌then◌else◌}
use relvec_db.Common.Outcome.{ok, fail, runtime_error, null_pointer}
use relvec_db.Common.Texts.{bytes}
use relvec_db.Row.{ColumnType, bytes_eq}
use relvec_db.TablePage.{Frame}
use relvec_db.Table.{Table}
use relvec_db.Store.{FileName, FileImage, empty_file, opened, write_back}
use relvec_db.Store.InMemory.{in_memory, no_files}
use relvec_db.Catalog.{scheme_name, save_columns, find_table_schema}
use relvec_db.Catalog.Rows.{IsSaved}
use relvec_db.Catalog.Page.{Holds}
use relvec_db.Catalog.Save.{OnePage}
use relvec_db.Catalog.Samples.{people, people-IsStorable}
use relvec_db.Catalog.RoundTrip.{IsStorable, saved_page, dumped}
use relvec_db.Database.{
  OpenTable, Saved, IndexType, IndexMetadata, provider_pages, new_index_metadata, create_table,
  get_table, drop_table, create_index, get_index, with_index, type_column, find_type,
}
use relvec_db.Database.Create.{get_table-create_table}
use relvec_db.Database.Drop.{drop_table-image, create_table_again}
use relvec_db.Database.Index.{get_index-create_index}

abbrev Disk : Type 0
Disk = FileName → Option FileImage

abbrev table_name : FileName
table_name = bytes "people"

get_table-create_table_example :
    (c : Saved Disk OpenTable) × (create_table in_memory table_name people no_files ≡ ok c)
    × (c.result ≡ ok (record { provider = provider_pages people; table = opened empty_file }))
    × (get_table in_memory table_name none
          (write_back in_memory (scheme_name table_name) c.scheme c.disk)
        ≡ c.result)
get_table-create_table_example =
    get_table-create_table in_memory table_name people no_files refl refl people-IsStorable
      (omega arith)

-- The table that the schema was saved through, its page, and what is known of them.
abbrev saved :
    (t : Table) × (d : Frame) × (save_columns people (opened empty_file) ≡ ok t)
    × OnePage t d
    × Holds d people
saved = saved_page people people-IsStorable

-- The table and its schema, dumped.
people_disk : Disk
people_disk name =
    if bytes_eq table_name name
    then some empty_file
    else if bytes_eq (scheme_name table_name) name
    then some (dumped saved.0)
    else none

drop_table-image_example : drop_table in_memory table_name people_disk table_name ≡ (
    if bytes_eq table_name table_name || bytes_eq (scheme_name table_name) table_name
    then none
    else people_disk table_name)
drop_table-image_example = drop_table-image in_memory table_name people_disk table_name

-- `getTable` of a table that is not there, without a schema.
get_missing_run : get_table in_memory table_name none no_files ≡ fail null_pointer
unfolding get_table find_table_schema
get_missing_run = refl

twice-IsStorable : IsStorable (people ++ people)
twice-IsStorable = record {
  some_column = omega arith;
  columns = (column_a, (column_b, (column_a, (column_b, tt))));
  few = omega arith;
  room = omega arith;
}
  where
    column_a : IsSaved (record { name = bytes "id"; type = ColumnType.uint64; len = 0 })
    column_a = record { type_saved = cc; name_short = omega arith; length_fits = omega arith }

    column_b : IsSaved (record { name = bytes "name"; type = ColumnType.varchar; len = 128 })
    column_b = record { type_saved = cc; name_short = omega arith; length_fits = omega arith }

create_table_again_example :
    (c : Saved Disk OpenTable) × (create_table in_memory table_name people people_disk ≡ ok c)
    × (c.result ≡ fail runtime_error)
    × (find_table_schema in_memory table_name
          (write_back in_memory (scheme_name table_name) c.scheme c.disk)
        ≡ ok (some (people ++ people)))
unfolding people_disk bytes_eq
create_table_again_example =
    create_table_again in_memory table_name people people people_disk empty_file (dumped saved.0)
      {d = saved.1} refl refl (record { one = saved.3.one; first = refl; page = saved.3.page })
      saved.4 twice-IsStorable (omega arith)

-- An index type whose indexes are their metadata.
abbrev plain_index : IndexType in_memory IndexMetadata
plain_index = record {
  type_name = bytes "btree";
  on_create = λ metadata disk. ok (metadata, disk);
  on_drop = λ metadata disk. ok disk;
}

index-IsStorable : IsStorable (people ++ type_column (bytes "btree") ∷ [])
index-IsStorable = record {
  some_column = omega arith;
  columns = (column_a, (column_b, (column_c, tt)));
  few = omega arith;
  room = omega arith;
}
  where
    column_a : IsSaved (record { name = bytes "id"; type = ColumnType.uint64; len = 0 })
    column_a = record { type_saved = cc; name_short = omega arith; length_fits = omega arith }

    column_b : IsSaved (record { name = bytes "name"; type = ColumnType.varchar; len = 128 })
    column_b = record { type_saved = cc; name_short = omega arith; length_fits = omega arith }

    column_c : IsSaved (type_column (bytes "btree"))
    column_c = record { type_saved = cc; name_short = omega arith; length_fits = omega arith }

get_index-create_index_example :
    (c : Saved Disk IndexMetadata) × (disk' : Disk) × (metadata : IndexMetadata) × (create_index
        in_memory IndexMetadata
        (plain_index ∷ [])
        table_name
        people
        (bytes "btree")
        no_files
      ≡ ok c)
    × (new_index_metadata table_name people ≡ ok metadata)
    × (find_table_schema in_memory table_name
          (write_back in_memory (scheme_name table_name) c.scheme disk')
        ≡ ok (some (people ++ type_column (bytes "btree") ∷ [])))
    × (c ≡ with_index in_memory IndexMetadata disk' c.scheme (ok (metadata, disk')))
    × (get_index in_memory IndexMetadata
          (plain_index ∷ [])
          table_name
          (write_back in_memory (scheme_name table_name) c.scheme c.disk)
        ≡ ok (metadata, write_back in_memory (scheme_name table_name) c.scheme c.disk))
unfolding find_type bytes_eq
get_index-create_index_example =
    get_index-create_index in_memory IndexMetadata (plain_index ∷ []) table_name people
      (bytes "btree") no_files plain_index refl (cc) index-IsStorable (omega arith) refl
