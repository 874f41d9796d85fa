-- ===== src/Database/Create.antt =====
-- lib/sql/database.cpp: `getTable` after `createTable`.
use relvec_db.Common.{
  ℕ, ◌≤◌, ◌≡◌, refl, ap, ◌∙◌, some, none, List, arith, length, inl, inr, length-append, Bool-cases,
  false,
}
use relvec_db.Common.Outcome.{ok}
use relvec_db.Common.Texts.{bytes}
use relvec_db.Row.{Schema, bytes_eq, bytes_eq_iff}
use relvec_db.Table.{Table}
use relvec_db.Store.{
  FileName, FileImage, FileSystem, empty_file, opened, create_and_open_table, open_table,
  write_back,
}
use relvec_db.Store.Paths.{image-put_self, image-put_ne}
use relvec_db.Catalog.{scheme_name, find_table_schema}
use relvec_db.Catalog.RoundTrip.{
  IsStorable, saved_disk, saved_table, dumped, find_table_schema-image, save_table_schema-new,
}
use relvec_db.Database.Marshals.{create_page_provider_total}
use relvec_db.Database.{OpenTable, Saved, provider_pages, create_table, get_table}

-- A table and its scheme table are different files.
pub scheme_name-apart : (name : FileName) → bytes_eq (scheme_name name) name ≡ false
scheme_name-apart name = elim (Bool-cases (bytes_eq (scheme_name name) name)) [
  | inl same ↦ absurd (
      omega (
        arith,
        length-append name (bytes "scheme"),
        ap (λ (s : List ℕ). length s) ((bytes_eq_iff (scheme_name name) name).0 same),
      ))
  | inr apart ↦ apart
]

module _ (fs : FileSystem) (name : FileName) where
  open fs use {Disk, image, put, image-put}

  -- The table itself is not on the disk that the schema of a new table was saved to.
  saved_disk-other :
      (t : Table) (disk : Disk) → image (saved_disk fs name t disk) name ≡ image disk name
  unfolding saved_disk
  saved_disk-other t disk =
      image-put_ne fs (scheme_name name) name _ _ (scheme_name-apart name)
      ∙ image-put_ne fs (scheme_name name) name empty_file disk (scheme_name-apart name)

  create_and_open_table-new :
      (disk : Disk)
      → image disk name ≡ none
      → create_and_open_table fs name disk ≡ ok (opened empty_file, put name empty_file disk)
  unfolding create_and_open_table
  create_and_open_table-new disk new = rw new refl

  open_table-image :
      (disk : Disk) {file : FileImage}
      → image disk name ≡ some file
      → open_table fs name disk ≡ ok (opened file)
  unfolding open_table
  open_table-image disk e = rw e refl

  -- For a name under which neither a table nor a scheme file is, and a schema of at most 64
  -- columns that one page of a scheme table holds, `createTable` returns the empty table with the
  -- page provider of the schema, and `getTable` without a schema returns the same once the frames
  -- of the scheme table are dumped.
  pub get_table-create_table :
      (schema : Schema) (disk : Disk)
      → image disk (scheme_name name) ≡ none
      → image disk name ≡ none
      → IsStorable schema
      → length schema ≤ 64
      → (c : Saved Disk OpenTable) × (create_table fs name schema disk ≡ ok c)
        × (c.result ≡ ok (record { provider = provider_pages schema; table = opened empty_file }))
        × (get_table fs name none (write_back fs (scheme_name name) c.scheme c.disk) ≡ c.result)
  unfolding create_table get_table write_back
  get_table-create_table schema disk absent new s few =
      let (t, e, read) = saved_table schema s in
      let provided = create_page_provider_total schema s.columns few in
      let after = put name empty_file (saved_disk fs name t disk) in
      let last = put (scheme_name name) (dumped t) after in
      let created =
        create_and_open_table-new (saved_disk fs name t disk) (saved_disk-other t disk ∙ new) in
      let found : find_table_schema fs name last ≡ ok (some schema) =
        find_table_schema-image fs name last (dumped t)
          (image-put_self fs (scheme_name name) (dumped t) after) read in
      let there : image last name ≡ some empty_file =
        image-put_ne fs (scheme_name name) name (dumped t) after (scheme_name-apart name)
        ∙ image-put_self fs name empty_file (saved_disk fs name t disk) in
      (
        record {
          disk = after;
          scheme = t;
          result = ok (record { provider = provider_pages schema; table = opened empty_file });
        },
        rw (save_table_schema-new fs name schema disk absent e) (rw provided (rw created refl)),
        refl,
        rw found (rw provided (rw (open_table-image last there) refl)),
      )
