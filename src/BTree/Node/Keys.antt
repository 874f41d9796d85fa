-- ===== src/BTree/Node/Keys.antt =====
-- lib/sql/btree_page.h, `setKey` and `getKey`: the keys that a slot gives back as they were written.
use relvec_db.Common.{
  ℕ, ◌<◌, ◌≡◌, refl, sym, ap, ◌∙◌, List, [], ◌∷◌, ◌++◌, arith, length, leb, true,
}
use relvec_db.Common.Outcome.{ok, guard, out_of_range, >>=-eq-ok}
use relvec_db.Row.{Schema, Row}
use relvec_db.Marshal.{get_fixed_row_space, serialize_row, deserialize_row}
use relvec_db.Marshal.RoundTrip.{FitsRow, deserialize_row-serialize_row}
use relvec_db.Marshal.Space.{IsFixed, serialize_row-le-fixed_row_space}
use relvec_db.Marshal.Reads.{deserialize_row-FitsRow}
use relvec_db.BTree.Node.{stored_key}

-- A key of the index: a row that fits the schema of keys, which has no string column.
pub record IsKey (schema : Schema) (key : Row) : Type 0 where
  pub key_size : ℕ
  pub marshal : get_fixed_row_space schema ≡ ok key_size
  pub fixed : IsFixed schema
  pub fits : FitsRow schema key
  pub short : length key < 64

append_nil : (bytes : List ℕ) → bytes ++ [] ≡ bytes
append_nil [] = refl
append_nil (b ∷ bytes) = ap (λ t. b ∷ t) (append_nil bytes)

-- Such a key is given back as it was written.
pub stored_key_lem :
    (schema : Schema) (key : Row) → IsKey schema key → stored_key schema key ≡ ok key
unfolding stored_key
stored_key_lem schema key k =
    let (bytes, e, read) = deserialize_row-serialize_row schema key [] k.fits k.short in
    let (bytes', e', small) =
      serialize_row-le-fixed_row_space schema key k.fixed k.marshal k.fits k.short in
    let same : bytes' ≡ bytes = cc (e, e') in
    let inside : leb (length bytes) k.key_size ≡ true =
      ground (arith, small, ap (λ t. length t) same) in
    rw e (rw (k.marshal, inside) (ap (deserialize_row schema) (sym (append_nil bytes)) ∙ read))

-- What is read of a key that was written is a key, so that a copy of it is written as it is.
pub stored_key-IsKey :
    (schema : Schema) (key key' : Row)
    → IsFixed schema
    → length schema < 64
    → stored_key schema key ≡ ok key'
    → IsKey schema key'
unfolding stored_key
stored_key-IsKey schema key key' f l e =
    let (bytes, eb, e₁) = >>=-eq-ok (serialize_row schema key) _ e in
    let (n, en, e₂) = >>=-eq-ok (get_fixed_row_space schema) _ e₁ in
    let (_, _, read) = >>=-eq-ok (guard (leb (length bytes) n) out_of_range) _ e₂ in
    let (fits, size) = deserialize_row-FitsRow schema key key' bytes f en eb read in
    record { key_size = n; marshal = en; fixed = f; fits = fits; short = omega (arith, size, l) }

pub stored_key-again :
    (schema : Schema) (key key' : Row)
    → IsFixed schema
    → length schema < 64
    → stored_key schema key ≡ ok key'
    → stored_key schema key' ≡ ok key'
stored_key-again schema key key' f l e =
    stored_key_lem schema key' (stored_key-IsKey schema key key' f l e)
