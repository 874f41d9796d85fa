-- ===== src/Catalog/Tests.antt =====
-- Runs of the catalog, and the theorems at concrete inputs.
use relvec_db.Common.{◌≡◌, refl, some}
use relvec_db.Common.Outcome.{ok}
use relvec_db.Common.Texts.{bytes}
use relvec_db.Table.{Table}
use relvec_db.Store.{FileSystem, write_back}
use relvec_db.Store.InMemory.{in_memory, no_files}
use relvec_db.Catalog.{scheme_name, save_table_schema, find_table_schema}
use relvec_db.Catalog.Samples.{people, people-IsStorable}
use relvec_db.Catalog.RoundTrip.{find_table_schema-save_table_schema}

find_table_schema-save_table_schema_example :
    (t : Table) × (disk' : FileSystem.Disk in_memory) × (save_table_schema in_memory
        (bytes "people")
        people
        no_files
      ≡ ok (t, disk'))
    × (find_table_schema in_memory
          (bytes "people")
          (write_back in_memory (scheme_name (bytes "people")) t disk')
        ≡ ok (some people))
find_table_schema-save_table_schema_example =
    find_table_schema-save_table_schema in_memory (bytes "people") people no_files refl
      people-IsStorable
