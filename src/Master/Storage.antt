-- ===== src/Master/Storage.antt =====
-- master/persistent_kv/kv_storage.cpp: a map of texts kept in a page, a row for a key and one for its
-- value. A text is the list of its `char`s, an `unordered_map` what `find` says of each text.
pub mod Load
use relvec_db.Common.{
  ℕ, zero, suc, ◌+◌, ◌*◌, ◌/◌, Bool, true, false, ◌||◌, Option, none, some, List, ◌==◌, length,
  if◌then◌else◌,
}
use relvec_db.Common.Outcome.{Outcome, ok, fail, assertion, ◌>>=◌, ◌>>◌, guard}
use relvec_db.Row.{bytes_eq}
use relvec_db.Master.Page.{Bytes, get_cnt_rows, get_row, insert_row, delete_row}

abbrev pub Text : Type 0
Text = List ℕ

-- `values_` and `key2index_`.
pub record Maps : Type 0 where
  pub values : Text → Option Text
  pub key2index : Text → Option ℕ

abbrev pub empty_maps : Maps
empty_maps = record { values = λ key. none; key2index = λ key. none }

-- `operator[]` of a map and an assignment.
abbrev pub assign : {A : Type 0} → Text → A → (Text → Option A) → Text → Option A
assign key value m other = if bytes_eq other key then some value else m other

-- `erase` of a map.
abbrev pub forget : {A : Type 0} → Text → (Text → Option A) → Text → Option A
forget key m other = if bytes_eq other key then none else m other

-- `KVStorage`: `keys_` is known by its length, since its entries are all empty.
pub record KvStorage : Type 0 where
  pub page : Bytes
  pub keys : ℕ
  pub tables : Maps

-- What the constructor does with a pair of rows.
unfoldable pub load_pair : ℕ → Text → Text → Maps → Maps
load_pair i key value m =
    if length key == 0 || length value == 0
    then m
    else record { values = assign key value m.values; key2index = assign key (i / 2) m.key2index }

-- The rows of the pair are read first.
unfoldable pub load_step : Bytes → ℕ → Maps → Outcome Maps
unfolding load_pair
load_step f i m = do
  key ← get_row f (2 * i)
  value ← get_row f (2 * i + 1)
  ok (load_pair i key value m)

-- The loop of the constructor, with the number of rounds left.
unfoldable pub load_pairs : ℕ → ℕ → Bytes → Maps → Outcome Maps
unfolding load_step
load_pairs zero i f m = ok m
load_pairs (suc n) i f m = do m' ← load_step f i m; load_pairs n (suc i) f m'

-- The constructor: `2 * i + 1 < getRowCount()` holds of the first half of the number of rows.
unfoldable pub load : Bytes → Outcome KvStorage
unfolding load_pairs
load f = do
  m ← load_pairs (get_cnt_rows f / 2) 0 f empty_maps
  ok (record { page = f; keys = 0; tables = m })

abbrev pub index_or_zero : Option ℕ → ℕ
index_or_zero none = 0
index_or_zero (some i) = i

abbrev pub is_some : {A : Type 0} → Option A → Bool
is_some none = false
is_some (some a) = true

-- `erase` of a key that has a value. `operator[]` makes a missing index 0.
unfoldable pub erase_present : Text → KvStorage → Outcome KvStorage
erase_present key s = do
  let index = index_or_zero (s.tables.key2index key)
  f₁ ← delete_row (2 * index) s.page
  f₂ ← delete_row (2 * index + 1) f₁
  ok (record {
    page = f₂;
    keys = s.keys;
    tables = record {
      values = forget key s.tables.values;
      key2index = forget key s.tables.key2index;
    };
  })

-- `erase`
unfoldable pub erase : Text → KvStorage → Outcome KvStorage
unfolding erase_present
erase key s = elim (s.tables.values key) [ none ↦ ok s | some value ↦ erase_present key s ]

-- `insertRow` and the assertion on its result.
unfoldable pub insert_kept : Text → Bytes → Outcome Bytes
insert_kept row f = do (index, f') ← insert_row row f; guard (is_some index) assertion; ok f'

-- What `set` does after the erasure.
unfoldable pub set_fresh : Text → Text → KvStorage → Outcome KvStorage
unfolding insert_kept
set_fresh key value s = do
  f₁ ← insert_kept key s.page
  f₂ ← insert_kept value f₁
  ok (record {
    page = f₂;
    keys = suc s.keys;
    tables = record {
      values = assign key value s.tables.values;
      key2index = assign key s.keys s.tables.key2index;
    };
  })

-- What `set` does for the index that the key has.
unfoldable pub set_at : Option ℕ → Text → Text → KvStorage → Outcome KvStorage
unfolding erase set_fresh
set_at none key value s = set_fresh key value s
set_at (some index) key value s = do s' ← erase key s; set_fresh key value s'

-- `set`
unfoldable pub set : Text → Text → KvStorage → Outcome KvStorage
unfolding set_at
set key value s = set_at (s.tables.key2index key) key value s
