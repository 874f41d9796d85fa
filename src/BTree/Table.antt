-- ===== src/BTree/Table.antt =====
-- lib/sql/btree.h, `BTreeIndexTable`, and the pages of an index.
-- A page handle of the source stays on its frame; here a page is read from the table and written
-- back. A page that is read as another kind than it is, and a page index outside the file, are
-- faults.
use relvec_db.Common.{ℕ, ◌+◌, ltb, ◌==◌, if◌then◌else◌}
use relvec_db.Common.Int.{ℤ, pos, negsuc}
use relvec_db.Common.Outcome.{Outcome, ok, fail, out_of_range, ◌>>=◌, ◌>>◌, guard}
use relvec_db.Row.{Row, Schema}
use relvec_db.BTree.Node.{Entry}
use relvec_db.BTree.Leaf
use relvec_db.BTree.Leaf.{Leaf}
use relvec_db.BTree.Internal
use relvec_db.BTree.Internal.{Internal}

-- `BTreeMetadataPage`
pub record Metadata : Type 0 where
  pub root : ℤ
  pub key_size_in_bytes : ℕ
  pub max_page_size : ℕ

-- A page by its `BTreePageType`.
pub data Page : Type 0 where
  invalid : Page
  metadata : Metadata → Page
  internal : Internal → Page
  leaf : Leaf → Page

-- The pages of the index file, in order of allocation, with what the index knows of its keys:
-- their schema, their size, and the row that the zero bytes of a new page read as.
pub record Index : Type 0 where
  pub pages : ℕ → Page
  pub page_count : ℕ
  pub key_schema : Schema
  pub key_size : ℕ
  pub max_page_size : ℕ
  pub zero_key : Row

-- `getPage`
unfoldable pub get_page : Index → ℤ → Outcome Page
get_page t (pos i) = do guard (ltb i t.page_count) out_of_range; ok (t.pages i)
get_page t (negsuc i) = fail out_of_range

-- The write to a page that a handle makes.
unfoldable pub set_page : ℤ → Page → Index → Index
set_page (pos i) p t = record t { pages = λ j. if j == i then p else t.pages j }
set_page (negsuc i) p t = t

unfoldable pub as_leaf : Page → Outcome Leaf
as_leaf (Page.leaf p) = ok p
as_leaf _ = fail out_of_range

unfoldable pub as_internal : Page → Outcome Internal
as_internal (Page.internal p) = ok p
as_internal _ = fail out_of_range

unfoldable pub as_metadata : Page → Outcome Metadata
as_metadata (Page.metadata m) = ok m
as_metadata _ = fail out_of_range

-- `getLeafPage`
unfoldable pub get_leaf : Index → ℤ → Outcome Leaf
unfolding get_page as_leaf
get_leaf t i = do p ← get_page t i; as_leaf p

-- `getInternalPage`
unfoldable pub get_internal : Index → ℤ → Outcome Internal
unfolding get_page as_internal
get_internal t i = do p ← get_page t i; as_internal p

-- The slots of a page of zero bytes.
abbrev pub zero_slots : {V : Type 0} → Index → V → ℕ → Entry V
zero_slots t v j = record { key = t.zero_key; value = v }

-- `allocateLeafPage`: a page of zero bytes, so both links are 0.
unfoldable pub allocate_leaf_page : Index → Leaf × ℤ × Index
unfolding Leaf.calculate_max_keys_size set_page
allocate_leaf_page t =
    let p : Leaf = record {
      node = record {
        key_schema = t.key_schema;
        max_keys = Leaf.calculate_max_keys_size t.key_size;
        size = 0;
        slots = zero_slots t (record { page_index = pos 0; row_index = pos 0 });
      };
      previous = pos 0;
      next = pos 0;
    } in
    (
      p,
      pos t.page_count,
      set_page (pos t.page_count) (Page.leaf p) (record t { page_count = t.page_count + 1 }),
    )

-- `allocateInternalPage`
unfoldable pub allocate_internal_page : Index → Internal × ℤ × Index
unfolding Internal.calculate_max_keys_size set_page
allocate_internal_page t =
    let p : Internal = record {
      key_schema = t.key_schema;
      max_keys = Internal.calculate_max_keys_size t.key_size;
      size = 0;
      slots = zero_slots t (pos 0);
    } in
    (
      p,
      pos t.page_count,
      set_page (pos t.page_count) (Page.internal p) (record t { page_count = t.page_count + 1 }),
    )

-- `allocateMetadataPage`
unfoldable pub allocate_metadata_page : Index → Metadata × ℤ × Index
unfolding set_page
allocate_metadata_page t =
    let m : Metadata = record { root = pos 0; key_size_in_bytes = 0; max_page_size = 0 } in
    (
      m,
      pos t.page_count,
      set_page (pos t.page_count) (Page.metadata m) (record t { page_count = t.page_count + 1 }),
    )

-- `metadata_page.getRootPageIndex()`, of page `MetadataPageIndex`.
unfoldable pub get_root : Index → Outcome ℤ
unfolding get_page as_metadata
get_root t = do p ← get_page t (pos 0); m ← as_metadata p; ok m.root

-- `metadata_page.setRootPageIndex(root)`
unfoldable pub set_root : ℤ → Index → Outcome Index
unfolding get_page as_metadata set_page
set_root root t = do
  p ← get_page t (pos 0)
  m ← as_metadata p
  ok (set_page (pos 0) (Page.metadata (record m { root = root })) t)
