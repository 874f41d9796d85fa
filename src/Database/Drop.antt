-- ===== src/Database/Drop.antt =====
-- lib/sql/database.cpp: `dropTable`, and `createTable` of a table that is there.
use relvec_db.Common.{
  ◌+◌, ◌≤◌, ◌≡◌, length, refl, ap, sym, ◌∙◌, some, none, List, [], ◌∷◌, ◌++◌, arith, inl, inr,
  length-append, Bool-cases, ◌||◌, if◌then◌else◌, Option-cases, All,
}
use relvec_db.Common.Outcome.{ok, fail, runtime_error}
use relvec_db.Row.{Schema, bytes_eq, bytes_eq_iff}
use relvec_db.TablePage.{Frame}
use relvec_db.Table.{Table}
use relvec_db.Store.{
  FileName, FileImage, FileSystem, opened, create_and_open_table, open_table, remove_table,
  write_back,
}
use relvec_db.Store.Paths.{image-put_self, image-put_ne}
use relvec_db.Catalog.{
  scheme_name, save_columns, save_table_schema, find_table_schema, forget_table_schema, read_schema,
  grown,
}
use relvec_db.Catalog.Rows.{IsSaved}
use relvec_db.Catalog.Page.{Holds, space}
use relvec_db.Catalog.Save.{OnePage, used, save_columns-Holds}
use relvec_db.Catalog.Find.{read_schema-Reads}
use relvec_db.Catalog.RoundTrip.{IsStorable, dumped, used_page, find_table_schema-image}
use relvec_db.Database.Marshals.{create_page_provider_total}
use relvec_db.Database.{OpenTable, Saved, create_table, drop_table}
use relvec_db.Database.Create.{scheme_name-apart}

module _ (fs : FileSystem) (name : FileName) where
  open fs use {Disk, image, put, delete, image-delete}

  forget_table_schema-image :
      (disk : Disk) (other : FileName)
      → image (forget_table_schema fs name disk) other
        ≡ (if bytes_eq (scheme_name name) other then none else image disk other)
  unfolding forget_table_schema remove_table
  forget_table_schema-image disk other = elim (Option-cases (image disk (scheme_name name))) [
    | inr (file, there) ↦ rw there (image-delete (scheme_name name) other disk)
    | inl absent ↦ rw absent (elim (Bool-cases (bytes_eq (scheme_name name) other)) [
      | inl same ↦
          rw same (ap (image disk) (sym ((bytes_eq_iff (scheme_name name) other).0 same)) ∙ absent)
      | inr apart ↦ rw apart refl
    ])
  ]

  -- After `dropTable` no file is under the name of the table or of its scheme table, and what is
  -- under any other name is unchanged.
  pub drop_table-image :
      (disk : Disk) (other : FileName)
      → image (drop_table fs name disk) other ≡ (
          if bytes_eq name other || bytes_eq (scheme_name name) other
          then none
          else image disk other)
  unfolding drop_table remove_table
  drop_table-image disk other =
      image-delete name other (forget_table_schema fs name disk)
      ∙ elim (Bool-cases (bytes_eq name other)) [
        | inl same ↦ rw same refl
        | inr apart ↦ rw apart (forget_table_schema-image disk other)
      ]

All-append_left {ℓ κ} : {A : Type ℓ} (P : A → Type κ) (s t : List A) → All P (s ++ t) → All P t
All-append_left P [] t h = h
All-append_left P (a ∷ s) t h = All-append_left P s t h.1

space-append_all : (s t : Schema) → space (s ++ t) ≡ space s + space t
space-append_all [] t = omega arith
space-append_all (c ∷ s) t = omega (arith, space-append_all s t)

-- The schema of a table that has one is saved behind the one that is there.
saved_again :
    (before schema : Schema) (file : FileImage) {d : Frame}
    → OnePage (opened file) d
    → Holds d before
    → IsStorable (before ++ schema)
    → (t : Table) × (save_columns schema (opened file) ≡ ok t)
      × (read_schema (opened (dumped t)) ≡ ok (before ++ schema))
saved_again before schema file {d} one h s =
    let both = length-append before schema in
    let room = space-append_all before schema in
    let (t, d', e, ready, h') =
      save_columns-Holds schema before (used one) (All-append_left IsSaved before schema s.columns)
        h (omega (arith, s.few, both)) (omega (arith, s.room, both, room)) in
    let one' = used_page (before ++ schema) s.some_column ready h' in
    (
      t,
      e,
      read_schema-Reads (opened (dumped t)) d' one'.one one'.page (before ++ schema)
          (omega (arith, s.few)) s.columns h'.reads,
    )

module _ (fs : FileSystem) (name : FileName) where
  open fs use {Disk, image, put}

  save_table_schema-there :
      (schema : Schema) (disk : Disk) (file : FileImage) {t : Table}
      → image disk (scheme_name name) ≡ some file
      → save_columns schema (opened file) ≡ ok t
      → save_table_schema fs name schema disk ≡ ok (t, put (scheme_name name) (grown file t) disk)
  unfolding save_table_schema
  save_table_schema-there schema disk file there e = rw there (rw (there, open_table) (rw e refl))

  create_and_open_table-there :
      (disk : Disk) (file : FileImage)
      → image disk name ≡ some file
      → create_and_open_table fs name disk ≡ fail runtime_error
  unfolding create_and_open_table
  create_and_open_table-there disk file there = rw there refl

  -- Where a table is there, and its scheme file has one page with the rows of a schema, and a
  -- further schema of at most 64 columns fits on the page behind it, `createTable` of that name
  -- throws, but the further schema is saved behind the first: `findTableSchema` returns both, one
  -- behind the other, once the frames are dumped.
  pub create_table_again :
      (before schema : Schema) (disk : Disk) (table file : FileImage) {d : Frame}
      → image disk name ≡ some table
      → image disk (scheme_name name) ≡ some file
      → OnePage (opened file) d
      → Holds d before
      → IsStorable (before ++ schema)
      → length schema ≤ 64
      → (c : Saved Disk OpenTable) × (create_table fs name schema disk ≡ ok c)
        × (c.result ≡ fail runtime_error)
        × (find_table_schema fs name (write_back fs (scheme_name name) c.scheme c.disk)
            ≡ ok (some (before ++ schema)))
  unfolding create_table write_back
  create_table_again before schema disk table file there scheme one h s few =
      let (t, e, read) = saved_again before schema file one h s in
      let disk' = put (scheme_name name) (grown file t) disk in
      let provided =
        create_page_provider_total schema (All-append_left IsSaved before schema s.columns) few in
      let refused = create_and_open_table-there disk' table (
        image-put_ne fs (scheme_name name) name (grown file t) disk (scheme_name-apart name)
        ∙ there) in
      (
        record { disk = disk'; scheme = t; result = fail runtime_error },
        rw (save_table_schema-there schema disk file scheme e) (rw provided (rw refused refl)),
        refl,
        find_table_schema-image fs name (put (scheme_name name) (dumped t) disk') (dumped t)
            (image-put_self fs (scheme_name name) (dumped t) disk') read,
      )
