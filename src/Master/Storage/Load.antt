-- ===== src/Master/Storage/Load.antt =====
-- master/persistent_kv/kv_storage.cpp: what is set is there when the storage is loaded again.
use relvec_db.Common.{
  ℕ, zero, suc, ◌+◌, ◌*◌, ◌/◌, ◌<◌, ◌≤◌, ◌≡◌, refl, sym, ap, ◌∙◌, false, ◌||◌, none, some, ◌==◌,
  length, arith, All,
}
use relvec_db.Common.Outcome.{Outcome, ok, fail, ◌>>=◌, >>=-eq-ok}
use relvec_db.Master.Page.{
  Bytes, page_size, get_cnt_rows, get_sizes_rows, total, get_row, insert_row,
}
use relvec_db.Master.Page.Append.{
  get_row-insert_row, appended, appended-count, appended-sizes, total-append,
}
use relvec_db.Master.Storage.{
  Text, Maps, empty_maps, assign, KvStorage, load_pair, load_step, load_pairs, load, insert_kept,
  set_fresh, set_at, set,
}

bind_congr :
    (o : Outcome Maps) (g h : Maps → Outcome Maps)
    → ((m : Maps) → g m ≡ h m)
    → (o >>= g) ≡ (o >>= h)
bind_congr (fail fault) g h same = refl
bind_congr (ok m) g h same = same m

bind_assoc :
    (o : Outcome Maps) (g h : Maps → Outcome Maps) → (o >>= λ m. g m >>= h) ≡ ((o >>= g) >>= h)
bind_assoc (fail fault) g h = refl
bind_assoc (ok m) g h = refl

bind_ok : (o : Outcome Maps) → (o >>= λ m. ok m) ≡ o
bind_ok (fail fault) = refl
bind_ok (ok m) = refl

-- A loop of one more round does its last round on what the others left.
load_pairs-last :
    (n i : ℕ) (f : Bytes) (m : Maps)
    → load_pairs (suc n) i f m ≡ (load_pairs n i f m >>= load_step f (i + n))
unfolding load_pairs
load_pairs-last zero i f m = let e : i + 0 ≡ i = omega arith in rw e (bind_ok (load_step f i m))
load_pairs-last (suc n) i f m =
    let e : i + suc n ≡ suc i + n = omega arith in
    rw e (
      bind_congr (load_step f i m) _ _ (load_pairs-last n (suc i) f)
      ∙ bind_assoc (load_step f i m) (load_pairs n (suc i) f) (load_step f (suc i + n)))

-- Rounds that read the same rows come to the same.
load_pairs-same :
    (n i : ℕ) (f f' : Bytes) (m : Maps)
    → ((j : ℕ) → j < 2 * (i + n) → get_row f' j ≡ get_row f j)
    → load_pairs n i f' m ≡ load_pairs n i f m
unfolding load_pairs load_step
load_pairs-same zero i f f' m same = refl
load_pairs-same (suc n) i f f' m same =
    let key = same (2 * i) (omega arith) in
    let value = same (2 * i + 1) (omega arith) in
    rw (key, value)
      (bind_congr (load_step f i m) _ _
        (λ m'. load_pairs-same n (suc i) f f' m' (λ j l. same j (omega (arith, l)))))

insert_kept-some :
    (row : Text) (f f' : Bytes) (i : ℕ)
    → insert_row row f ≡ ok (some i, f')
    → insert_kept row f ≡ ok f'
unfolding insert_kept
insert_kept-some row f f' i e = rw e refl

load_pair-assign :
    (i : ℕ) (key value : Text) (m : Maps)
    → 0 < length key
    → 0 < length value
    → Maps.values (load_pair i key value m) ≡ assign key value m.values
unfolding load_pair
load_pair-assign i key value m h h' =
    let e : length key == 0 || length value == 0 ≡ false = ground (arith, h, h') in rw e refl

abbrev after_set : Text → Text → Bytes → KvStorage → KvStorage
after_set key value f s = record {
  page = f;
  keys = suc s.keys;
  tables = record {
    values = assign key value s.tables.values;
    key2index = assign key s.keys s.tables.key2index;
  };
}

set_lem :
    (key value : Text) (s : KvStorage) (f₁ f₂ : Bytes)
    → s.tables.key2index key ≡ none
    → insert_kept key s.page ≡ ok f₁
    → insert_kept value f₁ ≡ ok f₂
    → set key value s ≡ ok (after_set key value f₂ s)
unfolding set set_fresh set_at
set_lem key value s f₁ f₂ fresh e₁ e₂ = ap (λ o. set_at o key value s) fresh ∙ (rw e₁ (rw e₂ refl))

-- A pair that the page has room for, set on a page of pairs.
module _ (f : Bytes) (n : ℕ) (key value : Text) (even : get_cnt_rows f ≡ 2 * n)
    (key_bytes : All (λ c. c < 256) key) (value_bytes : All (λ c. c < 256) value)
    (key_small : length key < 65536) (value_small : length value < 65536)
    (count : get_cnt_rows f + 2 < 65536)
    (room : total (get_sizes_rows f) + length key + length value + 4 + get_cnt_rows f
      ≤ page_size) where
  abbrev f₁ : Bytes
  f₁ = appended key f

  abbrev f₂ : Bytes
  f₂ = appended value f₁

  count₁ : get_cnt_rows f₁ ≡ get_cnt_rows f + 1
  count₁ = appended-count key f key_small (omega arith) (omega arith)

  total₁ : total (get_sizes_rows f₁) ≡ total (get_sizes_rows f) + length key
  total₁ =
      ap total (appended-sizes key f key_small (omega arith) (omega arith))
      ∙ total-append (get_sizes_rows f) (length key)

  count₂ : get_cnt_rows f₂ ≡ get_cnt_rows f + 2
  count₂ =
      appended-count value f₁ value_small (omega (arith, count₁)) (omega (arith, count₁, total₁))
      ∙ omega (arith, count₁)

  set_fresh-pages : (insert_kept key f ≡ ok f₁) × (insert_kept value f₁ ≡ ok f₂)
  set_fresh-pages =
      let (e₁, _, _) = get_row-insert_row key f key_bytes key_small (omega arith) (omega arith) in
      let (e₂, _, _) =
        get_row-insert_row value f₁ value_bytes value_small (omega (arith, count₁))
          (omega (arith, count₁, total₁)) in
      (insert_kept-some key f f₁ _ e₁, insert_kept-some value f₁ f₂ _ e₂)

  row_before : (j : ℕ) → j < 2 * n → get_row f₂ j ≡ get_row f j
  row_before j l =
      let (_, _, k₁) = get_row-insert_row key f key_bytes key_small (omega arith) (omega arith) in
      let (_, _, k₂) =
        get_row-insert_row value f₁ value_bytes value_small (omega (arith, count₁))
          (omega (arith, count₁, total₁)) in
      k₂ j (omega (arith, l, even, count₁)) ∙ k₁ j (omega (arith, l, even))

  key_row : get_row f₂ (2 * n) ≡ ok key
  key_row =
      let (_, r₁, _) = get_row-insert_row key f key_bytes key_small (omega arith) (omega arith) in
      let (_, _, k₂) =
        get_row-insert_row value f₁ value_bytes value_small (omega (arith, count₁))
          (omega (arith, count₁, total₁)) in
      k₂ (2 * n) (omega (arith, even, count₁)) ∙ ap (get_row f₁) (sym even) ∙ r₁

  value_row : get_row f₂ (2 * n + 1) ≡ ok value
  value_row =
      let (_, r₂, _) =
        get_row-insert_row value f₁ value_bytes value_small (omega (arith, count₁))
          (omega (arith, count₁, total₁)) in
      let e : 2 * n + 1 ≡ get_cnt_rows f₁ = omega (arith, even, count₁) in ap (get_row f₂) e ∙ r₂

  load_step-new : (m : Maps) → load_step f₂ n m ≡ ok (load_pair n key value m)
  unfolding load_step
  load_step-new m = rw (key_row, value_row) refl

  load_pairs-new :
      (m : Maps)
      → load_pairs n 0 f empty_maps ≡ ok m
      → load_pairs (suc n) 0 f₂ empty_maps ≡ ok (load_pair n key value m)
  load_pairs-new m e =
      load_pairs-last n 0 f₂ empty_maps
      ∙ ap (λ o. o >>= load_step f₂ (0 + n))
          (load_pairs-same n 0 f f₂ empty_maps (λ j l. row_before j (omega (arith, l))) ∙ e)
      ∙ ap (λ k. load_step f₂ k m) (omega arith)
      ∙ load_step-new m

  load-new :
      (m : Maps)
      → load_pairs n 0 f empty_maps ≡ ok m
      → load f₂ ≡ ok (record { page = f₂; keys = 0; tables = load_pair n key value m })
  unfolding load
  load-new m e =
      let half : get_cnt_rows f₂ / 2 ≡ suc n = omega (arith, count₂, even) in
      rw (half, load_pairs-new m e) refl

  set-fresh :
      (s : KvStorage)
      → s.page ≡ f
      → s.tables.key2index key ≡ none
      → set key value s ≡ ok (after_set key value f₂ s)
  set-fresh s same fresh =
      let (e₁, e₂) = set_fresh-pages in
      set_lem key value s f₁ f₂ fresh (ap (insert_kept key) same ∙ e₁) e₂

load-eq-ok :
    (f : Bytes) (n : ℕ) (s : KvStorage)
    → get_cnt_rows f ≡ 2 * n
    → load f ≡ ok s
    → (load_pairs n 0 f empty_maps ≡ ok s.tables) × (s.page ≡ f)
unfolding load
load-eq-ok f n s even e =
    let half : get_cnt_rows f / 2 ≡ n = omega (arith, even) in
    let (m, em, es) = >>=-eq-ok (load_pairs (get_cnt_rows f / 2) 0 f empty_maps) _ e in
    let same : record { page = f; keys = 0; tables = m } ≡ s = cc es in
    (
      ap (λ k. load_pairs k 0 f empty_maps) (sym half)
          ∙ em
          ∙ ap (λ t. ok (KvStorage.tables t)) same,
      ap KvStorage.page (sym same),
    )

-- On a storage loaded from a page of pairs that has room for another (fewer than 65534 rows, key
-- and value not empty and of fewer than 65536 bytes), `set` of a new key returns. The values are
-- then those before and the new one, and a storage that is loaded from the page that `set` left
-- has the same values.
pub load-set :
    (f : Bytes) (n : ℕ) (key value : Text) (s : KvStorage)
    → get_cnt_rows f ≡ 2 * n
    → load f ≡ ok s
    → s.tables.key2index key ≡ none
    → All (λ c. c < 256) key
    → All (λ c. c < 256) value
    → (0 < length key) × (length key < 65536)
    → (0 < length value) × (length value < 65536)
    → get_cnt_rows f + 2 < 65536
    → total (get_sizes_rows f) + length key + length value + 4 + get_cnt_rows f ≤ page_size
    → (s' : KvStorage) × (t : KvStorage) × (set key value s ≡ ok s')
      × (load s'.page ≡ ok t)
      × (s'.tables.values ≡ assign key value s.tables.values)
      × (t.tables.values ≡ s'.tables.values)
load-set f n key value s even e fresh kb vb (k₀, ks) (v₀, vs) count room =
    let (em, ep) = load-eq-ok f n s even e in
    (
      _,
      _,
      set-fresh f n key value even kb vb ks vs count room s ep fresh,
      load-new f n key value even kb vb ks vs count room s.tables em,
      refl,
      load_pair-assign n key value s.tables k₀ v₀,
    )
