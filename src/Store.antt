-- ===== src/Store.antt =====
-- lib/sql/store.cpp, `Store`, and the opening of a `File`.
-- The file system is a parameter: a disk maps the names in the store's directory to what the files
-- hold. An open table has its own frames of the pages: what is written to them is in the file only
-- when the frame pool has dumped them.
pub mod Paths
pub mod Tables
pub mod InMemory
mod Tests
use relvec_db.Common.{ℕ, Bool, true, false, ◌≡◌, Option, none, some, List, [], ◌∷◌, if◌then◌else◌}
use relvec_db.Common.Outcome.{Outcome, ok, fail, runtime_error, ◌>>=◌, ◌>>◌}
use relvec_db.Row.{bytes_eq}
use relvec_db.TablePage.{Frame}
use relvec_db.Table.{Table}

abbrev pub FileName : Type 0
FileName = List ℕ

-- The pages of a file.
pub record FileImage : Type 0 where
  pub pages : ℕ → Frame
  pub page_count : ℕ

-- What the store asks of the file system, with its documented behaviour: a write or a removal
-- changes what is under its name, and nothing else.
pub record FileSystem : Type 1 where
  pub Disk : Type 0
  pub image : Disk → FileName → Option FileImage
  pub put : FileName → FileImage → Disk → Disk
  pub delete : FileName → Disk → Disk
  pub image-put :
      (name other : FileName) (file : FileImage) (disk : Disk)
      → image (put name file disk) other
        ≡ (if bytes_eq name other then some file else image disk other)
  pub image-delete :
      (name other : FileName) (disk : Disk)
      → image (delete name disk) other ≡ (if bytes_eq name other then none else image disk other)

abbrev pub empty_file : FileImage
empty_file = record { pages = λ page j. 0; page_count = 0 }

abbrev pub is_there : Option FileImage → Bool
is_there none = false
is_there (some file) = true

abbrev pub opened : FileImage → Table
opened file = record { pages = file.pages; page_count = file.page_count; current_page_index = 0 }

abbrev pub open_image : Option FileImage → Outcome Table
open_image none = fail runtime_error
open_image (some file) = ok (opened file)

module _ (fs : FileSystem) where
  open fs use {Disk, image, put, delete}

  -- `checkTableExists`
  unfoldable pub check_table_exists : FileName → Disk → Bool
  check_table_exists name disk = is_there (image disk name)

  -- `File(path, true)`: `open` with `O_CREAT | O_EXCL`.
  unfoldable pub create_file : FileName → Disk → Outcome Disk
  create_file name disk =
      if is_there (image disk name) then fail runtime_error else ok (put name empty_file disk)

  -- `createTable` and `createIndexTable`
  unfoldable pub create_table : FileName → Disk → Outcome Disk
  unfolding check_table_exists create_file
  create_table name disk =
      if check_table_exists name disk then fail runtime_error else create_file name disk

  -- `openTable` and `openIndexTable`: `File(path, false)`, with its pages.
  unfoldable pub open_table : FileName → Disk → Outcome Table
  open_table name disk = open_image (image disk name)

  -- `createAndOpenTable` and `createAndOpenIndexTable`
  unfoldable pub create_and_open_table : FileName → Disk → Outcome (Table × Disk)
  unfolding check_table_exists create_file
  create_and_open_table name disk =
      let created = (do disk' ← create_file name disk; ok (opened empty_file, disk')) in
      if check_table_exists name disk then fail runtime_error else created

  -- `createOrOpenTable` and `createOrOpenIndexTable`
  unfoldable pub create_or_open_table : FileName → Disk → Outcome (Table × Disk)
  unfolding check_table_exists create_and_open_table open_table
  create_or_open_table name disk =
      let found = (do table ← open_table name disk; ok (table, disk)) in
      if check_table_exists name disk then found else create_and_open_table name disk

  -- `removeTable`: whether there was a file.
  unfoldable pub remove_table : FileName → Disk → Bool × Disk
  remove_table name disk = (is_there (image disk name), delete name disk)

  -- `removeTableIfExists`
  unfoldable pub remove_table_if_exists : FileName → Disk → Bool × Disk
  unfolding check_table_exists remove_table
  remove_table_if_exists name disk =
      if check_table_exists name disk then remove_table name disk else (false, disk)

  -- The frames of an open table, dumped to its file.
  unfoldable pub write_back : FileName → Table → Disk → Disk
  write_back name table disk =
      put name (record { pages = table.pages; page_count = table.page_count }) disk
