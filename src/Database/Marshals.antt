-- ===== src/Database/Marshals.antt =====
-- lib/sql/database.cpp: the marshals that are constructed for the schemas of tables and indexes.
use relvec_db.Common.{
  ℕ, ◌+◌, ◌≤◌, ◌≡◌, ◌≢◌, refl, List, [], ◌∷◌, ◌++◌, All, arith, length, leb, true,
}
use relvec_db.Common.Outcome.{ok}
use relvec_db.Row.{ColumnType, Schema}
use relvec_db.Marshal.{type_space, fixed_space_from, calculate_fixed_row_space, new_marshal}
use relvec_db.Catalog.Rows.{IsSaved}
use relvec_db.Store.{FileName}
use relvec_db.Database.{IndexMetadata, provider_pages, create_page_provider, new_index_metadata}

type_space_lem :
    (type : ColumnType) (len : ℕ)
    → type ≢ ColumnType.vector
    → (n : ℕ) × (type_space type len ≡ ok n)
unfolding type_space
type_space_lem ColumnType.vector len h = absurd (h refl)
type_space_lem ColumnType.boolean len h = (_, refl)
type_space_lem ColumnType.uint64 len h = (_, refl)
type_space_lem ColumnType.int64 len h = (_, refl)
type_space_lem ColumnType.varchar len h = (_, refl)
type_space_lem ColumnType.string len h = (_, refl)

fixed_space_total :
    (schema : Schema) (acc : ℕ)
    → All IsSaved schema
    → (n : ℕ) × (fixed_space_from schema 0 acc ≡ ok n)
unfolding fixed_space_from
fixed_space_total [] acc h = (acc, refl)
fixed_space_total (c ∷ schema) acc (h, hs) =
    let (a, ea) = type_space_lem c.type c.len h.type_saved in
    let (n, e) = fixed_space_total schema (acc + a) hs in (n, rw ea e)

-- A marshal of at most 64 columns, none of them a vector, is constructed.
pub new_marshal_total :
    (schema : Schema)
    → All IsSaved schema
    → length schema ≤ 64
    → (n : ℕ) × (new_marshal schema ≡ ok n)
unfolding new_marshal calculate_fixed_row_space
new_marshal_total schema h l =
    let (n, e) = fixed_space_total schema 8 h in
    let few : leb (length schema) 64 ≡ true = ground (arith, l) in (n, rw e (rw few refl))

pub create_page_provider_total :
    (schema : Schema)
    → All IsSaved schema
    → length schema ≤ 64
    → create_page_provider schema ≡ ok (provider_pages schema)
unfolding create_page_provider
create_page_provider_total schema h l = let (n, e) = new_marshal_total schema h l in rw e refl

pub new_index_metadata_total :
    (name : FileName) (schema : Schema)
    → All IsSaved schema
    → length schema ≤ 64
    → (metadata : IndexMetadata) × (new_index_metadata name schema ≡ ok metadata)
      × (metadata.index_name ≡ name)
      × (metadata.key_schema ≡ schema)
unfolding new_index_metadata
new_index_metadata_total name schema h l =
    let (n, e) = new_marshal_total schema h l in
    (record { index_name = name; key_schema = schema; key_size = n }, rw e refl, refl, refl)

-- The columns at the front of a schema.
pub All-append_front {ℓ κ} : {A : Type ℓ} (P : A → Type κ) (s t : List A) → All P (s ++ t) → All P s
All-append_front P [] t h = tt
All-append_front P (a ∷ s) t (h, hs) = (h, All-append_front P s t hs)
