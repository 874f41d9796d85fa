-- ===== src/Store/Tests.antt =====
-- Runs of a store, and its theorem at a concrete sequence of calls.
use relvec_db.Common.{◌≡◌, refl, [], ◌∷◌, List, true}
use relvec_db.Common.Outcome.{fail, runtime_error}
use relvec_db.Common.Texts.{bytes}
use relvec_db.Row.{bytes_eq}
use relvec_db.Store.{open_table, check_table_exists}
use relvec_db.Store.InMemory.{in_memory, no_files}
use relvec_db.Store.Tables.{
  StoreCall, create, create_or_open, remove, open_only, create_and_open, files_after_all,
  disk_after_all, disk_after_all-files_after_all,
}

abbrev calls : List StoreCall
calls =
    create (bytes "a")
    ∷ create_or_open (bytes "a")
    ∷ create_and_open (bytes "a")
    ∷ create_and_open (bytes "b")
    ∷ remove (bytes "a")
    ∷ open_only (bytes "a")
    ∷ []

removed_run :
    open_table in_memory (bytes "a") (disk_after_all in_memory calls no_files).1
    ≡ fail runtime_error
unfolding open_table disk_after_all bytes_eq
removed_run = refl

kept_run :
    check_table_exists in_memory (bytes "b") (disk_after_all in_memory calls no_files).1 ≡ true
unfolding check_table_exists disk_after_all bytes_eq
kept_run = refl

disk_after_all-files_after_all_example :
    ((disk_after_all in_memory calls no_files).0, (disk_after_all in_memory calls no_files).1)
    ≡ files_after_all calls no_files
disk_after_all-files_after_all_example = disk_after_all-files_after_all in_memory calls no_files
