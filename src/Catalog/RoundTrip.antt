-- ===== src/Catalog/RoundTrip.antt =====
-- lib/sql/catalog.cpp: `findTableSchema` after `saveTableSchema`.
use relvec_db.Common.{◌+◌, ◌<◌, ◌≤◌, ◌≡◌, refl, ap, some, none, [], arith, length, All}
use relvec_db.Common.Outcome.{ok}
use relvec_db.Row.{Schema}
use relvec_db.TablePage.{Frame, page_size}
use relvec_db.Table.{Table}
use relvec_db.Store.{FileName, FileImage, FileSystem, empty_file, opened, write_back}
use relvec_db.Store.Paths.{image-put_self}
use relvec_db.Catalog.{
  scheme_name, save_columns, save_table_schema, find_table_schema, read_schema, grown,
}
use relvec_db.Catalog.Rows.{IsSaved}
use relvec_db.Catalog.Page.{Holds, Holds-nil, space}
use relvec_db.Catalog.Save.{OnePage, IsReady, new, used, save_columns-Holds}
use relvec_db.Catalog.Find.{read_schema-Reads}

-- A schema that one page of a scheme table holds.
pub record IsStorable (schema : Schema) : Type 0 where
  pub some_column : 0 < length schema
  pub columns : All IsSaved schema
  pub few : length schema < 256
  pub room : space schema + 2 + length schema ≤ page_size

pub used_page :
    {t : Table} {d : Frame} (schema : Schema)
    → 0 < length schema
    → IsReady t d
    → Holds d schema
    → OnePage t d
used_page schema l (new {t} {d} et ed) h =
    absurd (omega (arith, l, h.count, ap (λ (f : Frame). f 0) ed))
used_page schema l (used {t} {d} one) h = one

pub saved_page :
    (schema : Schema)
    → IsStorable schema
    → (t : Table) × (d : Frame) × (save_columns schema (opened empty_file) ≡ ok t)
      × OnePage t d
      × Holds d schema
saved_page schema s =
    let (t, d, e, ready, h) =
      save_columns-Holds schema [] (new refl refl) s.columns Holds-nil (omega (arith, s.few))
        (omega (arith, s.room)) in
    (t, d, e, used_page schema s.some_column ready h, h)

-- The file of a table whose frames were dumped.
abbrev pub dumped : Table → FileImage
dumped t = record { pages = t.pages; page_count = t.page_count }

-- The table that a schema was saved through: a scan of its file finds the schema.
pub saved_table :
    (schema : Schema)
    → IsStorable schema
    → (t : Table) × (save_columns schema (opened empty_file) ≡ ok t)
      × (read_schema (opened (dumped t)) ≡ ok schema)
saved_table schema s =
    let (t, d, e, one, h) = saved_page schema s in
    (
      t,
      e,
      read_schema-Reads (opened (dumped t)) d one.one one.page schema (omega (arith, s.few))
          s.columns h.reads,
    )

module _ (fs : FileSystem) (name : FileName) where
  open fs use {Disk, image, put, image-put}

  -- What is found where the file of the scheme table is there.
  pub find_table_schema-image :
      (disk : Disk) (file : FileImage) {schema : Schema}
      → image disk (scheme_name name) ≡ some file
      → read_schema (opened file) ≡ ok schema
      → find_table_schema fs name disk ≡ ok (some schema)
  unfolding find_table_schema
  find_table_schema-image disk file e r = rw e (rw r refl)

  -- The disk after the schema of a new table is saved.
  unfoldable pub saved_disk : (t : Table) (disk : Disk) → Disk
  saved_disk t disk =
      put (scheme_name name) (grown empty_file t) (put (scheme_name name) empty_file disk)

  pub save_table_schema-new :
      (schema : Schema) (disk : Disk) {t : Table}
      → image disk (scheme_name name) ≡ none
      → save_columns schema (opened empty_file) ≡ ok t
      → save_table_schema fs name schema disk ≡ ok (t, saved_disk t disk)
  unfolding save_table_schema saved_disk
  save_table_schema-new schema disk absent e =
      rw absent (rw (image-put_self fs (scheme_name name) empty_file disk) (rw e refl))

  -- For a table without a scheme file, and a schema that one page of it holds (no vector column,
  -- at least one column and at most 255, lengths below 2 ^ 32, rows of fewer than 256 bytes each,
  -- with room for all), `saveTableSchema` returns, and `findTableSchema` returns the same schema
  -- once the frames of the scheme table are dumped.
  pub find_table_schema-save_table_schema :
      (schema : Schema) (disk : Disk)
      → image disk (scheme_name name) ≡ none
      → IsStorable schema
      → (t : Table) × (disk' : Disk) × (save_table_schema fs name schema disk ≡ ok (t, disk'))
        × (find_table_schema fs name (write_back fs (scheme_name name) t disk') ≡ ok (some schema))
  unfolding write_back
  find_table_schema-save_table_schema schema disk absent s =
      let (t, e, read) = saved_table schema s in
      (
        t,
        saved_disk t disk,
        save_table_schema-new schema disk absent e,
        find_table_schema-image (put (scheme_name name) (dumped t) (saved_disk t disk)) (dumped t)
            (image-put_self fs (scheme_name name) (dumped t) (saved_disk t disk)) read,
      )
