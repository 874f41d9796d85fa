-- ===== src/Store/Tables.antt =====
-- lib/sql/store.cpp: the store as a map from the names of its tables to what their files hold.
use mathlib.Core.Path.{fun_ext}
use relvec_db.Common.{
  Bool, true, false, ◌≡◌, refl, ap, sym, ◌∙◌, inl, inr, Bool-cases, Option, Option-cases, none,
  some, List, [], ◌∷◌, if◌then◌else◌,
}
use relvec_db.Common.Outcome.{Outcome, ok, fail}
use relvec_db.Row.{bytes_eq, bytes_eq_iff}
use relvec_db.Table.{Table}
use relvec_db.Store.{
  FileName, FileImage, FileSystem, empty_file, opened, is_there, create_table, open_table,
  create_and_open_table, create_or_open_table, remove_table, remove_table_if_exists,
}

-- The calls of a store that create, open and remove tables.
pub data StoreCall : Type 0 where
  create open_only create_and_open create_or_open remove remove_if_exists : FileName → StoreCall

-- What a call gives back: it throws, it returns, it returns an open table, or whether there was one.
pub data Answer : Type 0 where
  thrown done : Answer
  table : Table → Answer
  removed : Bool → Answer

-- A map of files.
abbrev pub Files : Type 0
Files = FileName → Option FileImage

abbrev pub with_file : FileName → Option FileImage → Files → Files
with_file name file files other = if bytes_eq name other then file else files other

-- A new file in the map, where there is none of the name.
abbrev pub add_new : FileName → Answer → Files → Answer × Files
add_new name answer files =
    if is_there (files name)
    then (thrown, files)
    else (answer, with_file name (some empty_file) files)

abbrev pub opening : Option FileImage → Answer
opening none = thrown
opening (some file) = table (opened file)

-- What a call does to the map: a new table must not be there and is empty, an open one must be there,
-- and the others stay.
unfoldable pub files_after : StoreCall → Files → Answer × Files
files_after (create name) files = add_new name done files
files_after (open_only name) files = (opening (files name), files)
files_after (create_and_open name) files = add_new name (table (opened empty_file)) files
files_after (create_or_open name) files =
    if is_there (files name)
    then (opening (files name), files)
    else (table (opened empty_file), with_file name (some empty_file) files)
files_after (remove name) files = (removed (is_there (files name)), with_file name none files)
files_after (remove_if_exists name) files =
    (removed (is_there (files name)), with_file name none files)

-- The answers to a sequence of calls, and the map after it.
unfoldable pub files_after_all : List StoreCall → Files → List Answer × Files
unfolding files_after
files_after_all [] files = ([], files)
files_after_all (call ∷ calls) files =
    let first = files_after call files in
    let rest = files_after_all calls first.1 in (first.0 ∷ rest.0, rest.1)

module _ (fs : FileSystem) where
  open fs use {Disk, image, put, delete, image-put, image-delete}

  -- A call that throws leaves the disk.
  abbrev pub answer_created : Disk → Outcome Disk → Answer × Disk
  answer_created disk (fail fault) = (thrown, disk)
  answer_created disk (ok disk') = (done, disk')

  abbrev pub answer_opened : Disk → Outcome Table → Answer × Disk
  answer_opened disk (fail fault) = (thrown, disk)
  answer_opened disk (ok t) = (table t, disk)

  abbrev pub answer_table : Disk → Outcome (Table × Disk) → Answer × Disk
  answer_table disk (fail fault) = (thrown, disk)
  answer_table disk (ok (t, disk')) = (table t, disk')

  -- A call of the store, by its operation.
  unfoldable pub disk_after : StoreCall → Disk → Answer × Disk
  unfolding create_table open_table create_and_open_table create_or_open_table remove_table
      remove_table_if_exists
  disk_after (create name) disk = answer_created disk (create_table fs name disk)
  disk_after (open_only name) disk = answer_opened disk (open_table fs name disk)
  disk_after (create_and_open name) disk = answer_table disk (create_and_open_table fs name disk)
  disk_after (create_or_open name) disk = answer_table disk (create_or_open_table fs name disk)
  disk_after (remove name) disk = let r = remove_table fs name disk in (removed r.0, r.1)
  disk_after (remove_if_exists name) disk =
      let r = remove_table_if_exists fs name disk in (removed r.0, r.1)

  -- What an answer and a disk are in the map.
  abbrev pub seen : Answer × Disk → Answer × Files
  seen r = (r.0, image r.1)

  image-put_with :
      (name : FileName) (file : FileImage) (disk : Disk)
      → image (put name file disk) ≡ with_file name (some file) (image disk)
  image-put_with name file disk = fun_ext (λ other. image-put name other file disk)

  image-delete_with :
      (name : FileName) (disk : Disk) → image (delete name disk) ≡ with_file name none (image disk)
  image-delete_with name disk = fun_ext (λ other. image-delete name other disk)

  -- A name without a file is not removed.
  with_file-none :
      (name : FileName) (files : Files)
      → is_there (files name) ≡ false
      → with_file name none files ≡ files
  with_file-none name files e = fun_ext (λ other. elim (Bool-cases (bytes_eq name other)) [
    | inl same ↦ rw same (sym (absent (files name) e) ∙ ap files ((bytes_eq_iff name other).0 same))
    | inr apart ↦ rw apart refl
  ])
    where
      absent : (file : Option FileImage) → is_there file ≡ false → file ≡ none
      absent none e = refl
      absent (some file) e = cc

  disk_after-files_after :
      (call : StoreCall) (disk : Disk) → seen (disk_after call disk) ≡ files_after call (image disk)
  unfolding disk_after files_after
  disk_after-files_after (create name) disk = elim (Bool-cases (is_there (image disk name))) [
    | inl there ↦ rw there refl
    | inr absent ↦ rw absent (ap (λ f. (done, f)) (image-put_with name empty_file disk))
  ]
  disk_after-files_after (open_only name) disk = elim (Option-cases (image disk name)) [
    | inl absent ↦ rw absent refl
    | inr (file, there) ↦ rw there refl
  ]
  disk_after-files_after (create_and_open name) disk =
      elim (Bool-cases (is_there (image disk name))) [
        | inl there ↦ rw there refl
        | inr absent ↦
            rw absent
              (ap (λ f. (table (opened empty_file), f)) (image-put_with name empty_file disk))
      ]
  disk_after-files_after (create_or_open name) disk = elim (Option-cases (image disk name)) [
    | inl absent ↦
        rw absent (ap (λ f. (table (opened empty_file), f)) (image-put_with name empty_file disk))
    | inr (file, there) ↦ rw there refl
  ]
  disk_after-files_after (remove name) disk =
      ap (λ f. (removed (is_there (image disk name)), f)) (image-delete_with name disk)
  disk_after-files_after (remove_if_exists name) disk =
      elim (Bool-cases (is_there (image disk name))) [
        | inl there ↦ rw there (ap (λ f. (removed true, f)) (image-delete_with name disk))
        | inr absent ↦
            rw absent (ap (λ f. (removed false, f)) (sym (with_file-none name (image disk) absent)))
      ]

  -- The answers to a sequence of calls, and the disk after it.
  unfoldable pub disk_after_all : List StoreCall → Disk → List Answer × Disk
  unfolding disk_after
  disk_after_all [] disk = ([], disk)
  disk_after_all (call ∷ calls) disk =
      let first = disk_after call disk in
      let rest = disk_after_all calls first.1 in (first.0 ∷ rest.0, rest.1)

  -- The answers to any sequence of calls of a store that create, open and remove tables, and what
  -- the files hold after it, are what the same calls answer and make of a map of files. There,
  -- creating throws for a name that is in the map and adds an empty file for one that is not,
  -- opening throws for a name that is not in the map and returns the file of one that is, removing
  -- takes the name out and says whether it was there, and a call that throws changes nothing.
  pub disk_after_all-files_after_all :
      (calls : List StoreCall) (disk : Disk)
      → ((disk_after_all calls disk).0, image (disk_after_all calls disk).1)
        ≡ files_after_all calls (image disk)
  unfolding disk_after_all files_after_all
  disk_after_all-files_after_all [] disk = refl
  disk_after_all-files_after_all (call ∷ calls) disk =
      ap (λ r. ((disk_after call disk).0 ∷ r.0, r.1))
        (disk_after_all-files_after_all calls (disk_after call disk).1)
      ∙ ap (λ a. let rest = files_after_all calls a.1 in (a.0 ∷ rest.0, rest.1))
          (disk_after-files_after call disk)
