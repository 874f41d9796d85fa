-- ===== src/Store/InMemory.antt =====
-- A file system that keeps the files in a map: the operations that a store asks for can be had.
use relvec_db.Common.{refl, none, some, Option, if◌then◌else◌}
use relvec_db.Row.{bytes_eq}
use relvec_db.Store.{FileName, FileImage, FileSystem}

abbrev pub in_memory : FileSystem
in_memory = record {
  Disk = FileName → Option FileImage;
  image = λ disk name. disk name;
  put = λ name file disk other. if bytes_eq name other then some file else disk other;
  delete = λ name disk other. if bytes_eq name other then none else disk other;
  image-put = λ name other file disk. refl;
  image-delete = λ name other disk. refl;
}

abbrev pub no_files : FileName → Option FileImage
no_files name = none
