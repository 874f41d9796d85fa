-- ===== src/Store/Paths.antt =====
-- The names of files, compared by their bytes, and a disk after a write under a name.
use relvec_db.Common.{ℕ, ◌≡◌, refl, ◌∙◌, true, false, List, [], ◌∷◌, arith, some, none}
use relvec_db.Row.{bytes_eq}
use relvec_db.Store.{FileName, FileImage, FileSystem}

pub bytes_eq_refl : (s : List ℕ) → bytes_eq s s ≡ true
unfolding bytes_eq
bytes_eq_refl [] = ground arith
bytes_eq_refl (c ∷ s) = ground (arith, bytes_eq_refl s)

module _ (fs : FileSystem) (name : FileName) where
  open fs use {Disk, image, put, delete, image-put, image-delete}

  pub image-put_self :
      (file : FileImage) (disk : Disk) → image (put name file disk) name ≡ some file
  image-put_self file disk = image-put name name file disk ∙ rw (bytes_eq_refl name) refl

  pub image-put_ne :
      (other : FileName) (file : FileImage) (disk : Disk)
      → bytes_eq name other ≡ false
      → image (put name file disk) other ≡ image disk other
  image-put_ne other file disk apart = image-put name other file disk ∙ rw apart refl

  pub image-delete_self : (disk : Disk) → image (delete name disk) name ≡ none
  image-delete_self disk = image-delete name name disk ∙ rw (bytes_eq_refl name) refl

  pub image-delete_ne :
      (other : FileName) (disk : Disk)
      → bytes_eq name other ≡ false
      → image (delete name disk) other ≡ image disk other
  image-delete_ne other disk apart = image-delete name other disk ∙ rw apart refl
