-- ===== src/Master/Page/Append.antt =====
-- master/persistent_kv/flexible_page.cpp, `insertRow`: the row that it appends, and the rows before.
use relvec_db.Common.{
  ℕ, zero, suc, ◌+◌, ◌-◌, ◌%◌, ◌<◌, ◌≤◌, ◌≡◌, refl, sym, ap, ◌∙◌, ◌⊎◌, inl, inr, true, false, List,
  [], ◌∷◌, ◌++◌, Option, none, some, arith, length, take, get_elem?, get_elem?-last, take-last,
  get_elem?-append, take-append_lt, All, ltb, leb, ◌==◌, ◌||◌,
}
use mathlib.Core.Path.{ap₂}
use relvec_db.Common.Ranges.{range, range_split, range_ext, length-range}
use relvec_db.Common.Outcome.{ok}
use relvec_db.Master.Page.{
  Bytes, page_size, get_by_index, set_by_index, get_cnt_rows, get_sizes_rows, total, chars_from,
  read_row, get_row, write_row, append_row, insert_row,
}
use relvec_db.Master.Page.Words.{get_by_index-set_by_index, write_row-apart, chars-write_row}

pub total-append : (xs : List ℕ) (n : ℕ) → total (xs ++ (n ∷ [])) ≡ total xs + n
unfolding total
total-append [] n = omega arith
total-append (x ∷ xs) n = omega (arith, total-append xs n)

total-take : (i : ℕ) (xs : List ℕ) → total (take i xs) ≤ total xs
unfolding total
total-take zero xs = omega arith
total-take (suc i) [] = omega arith
total-take (suc i) (x ∷ xs) = omega (arith, total-take i xs)

-- The bytes after a row is appended.
abbrev pub appended : List ℕ → Bytes → Bytes
appended row f = set_by_index 0 (get_cnt_rows f + 1) (
    set_by_index (1 + get_cnt_rows f) (length row)
      (write_row (page_size - total (get_sizes_rows f) - length row) row f))

module _ (row : List ℕ) (f : Bytes) (small : length row < 65536)
    (count : get_cnt_rows f + 1 < 65536)
    (room : total (get_sizes_rows f) + length row + 2 + get_cnt_rows f ≤ page_size) where
  abbrev off : ℕ
  off = page_size - total (get_sizes_rows f) - length row

  abbrev f₁ : Bytes
  f₁ = write_row off row f

  abbrev f₂ : Bytes
  f₂ = set_by_index (1 + get_cnt_rows f) (length row) f₁

  size_here : get_by_index f₂ (1 + get_cnt_rows f) ≡ length row
  size_here =
      let e = get_by_index-set_by_index (1 + get_cnt_rows f) (length row) f₁ (1 + get_cnt_rows f) in
      ground (arith, e, small)

  pub appended-count : get_cnt_rows (appended row f) ≡ get_cnt_rows f + 1
  appended-count =
      let e = get_by_index-set_by_index 0 (get_cnt_rows f + 1) f₂ 0 in ground (arith, e, count)

  -- Past the count, the numbers are those before it is written.
  appended-after : (j : ℕ) → 0 < j → get_by_index (appended row f) j ≡ get_by_index f₂ j
  appended-after j h =
      let e = get_by_index-set_by_index 0 (get_cnt_rows f + 1) f₂ j in ground (arith, e, h)

  -- The numbers that are neither count nor size are those of the row and of before.
  appended-apart :
      (j : ℕ)
      → (0 < j × j < 1 + get_cnt_rows f) ⊎ (1 + get_cnt_rows f < j)
      → get_by_index (appended row f) j ≡ get_by_index f₁ j
  appended-apart j h =
      let e = get_by_index-set_by_index (1 + get_cnt_rows f) (length row) f₁ j in
      appended-after j (omega (arith, h)) ∙ (ground (arith, e, h))

  appended-old :
      (j : ℕ)
      → (0 < j × j < 1 + get_cnt_rows f) ⊎ (page_size - total (get_sizes_rows f) ≤ j)
      → get_by_index (appended row f) j ≡ get_by_index f j
  appended-old j h =
      appended-apart j (omega (arith, h, room))
      ∙ write_row-apart row off f j (omega (arith, h, room))

  old_sizes : range (get_by_index (appended row f)) 1 (get_cnt_rows f) ≡ get_sizes_rows f
  old_sizes =
      range_ext (get_by_index (appended row f)) (get_by_index f) 1 1 (get_cnt_rows f)
        (λ j l. appended-old (1 + j) (inl (omega arith, omega (arith, l))))

  new_size : range (get_by_index (appended row f)) (1 + get_cnt_rows f) 1 ≡ length row ∷ []
  unfolding range
  new_size = ap (λ n. n ∷ []) (appended-after (1 + get_cnt_rows f) (omega arith) ∙ size_here)

  pub appended-sizes : get_sizes_rows (appended row f) ≡ get_sizes_rows f ++ (length row ∷ [])
  appended-sizes =
      ap (range (get_by_index (appended row f)) 1) appended-count
      ∙ range_split (get_by_index (appended row f)) 1 (get_cnt_rows f) 1
      ∙ ap₂ ◌++◌ old_sizes new_size

  sizes_count : length (get_sizes_rows f) ≡ get_cnt_rows f
  sizes_count = length-range (get_by_index f) 1 (get_cnt_rows f)

  appended-size : get_elem? (get_sizes_rows (appended row f)) (get_cnt_rows f) ≡ some (length row)
  appended-size =
      ap (λ t. get_elem? t (get_cnt_rows f)) appended-sizes
      ∙ ap (λ k. get_elem? (get_sizes_rows f ++ (length row ∷ [])) k) (sym sizes_count)
      ∙ get_elem?-last (get_sizes_rows f) (length row)

  appended-total :
      total (take (suc (get_cnt_rows f)) (get_sizes_rows (appended row f)))
      ≡ total (get_sizes_rows f) + length row
  appended-total =
      ap (λ t. total (take (suc (get_cnt_rows f)) t)) appended-sizes
      ∙ ap (λ k. total (take (suc k) (get_sizes_rows f ++ (length row ∷ [])))) (sym sizes_count)
      ∙ ap total (take-last (get_sizes_rows f) (length row))
      ∙ total-append (get_sizes_rows f) (length row)

  -- The `char`s of the new row.
  appended-chars : All (λ c. c < 256) row → chars_from (appended row f) off (length row) ≡ row
  appended-chars bytes =
      range_ext (λ j. get_by_index (appended row f) j % 256) (λ j. get_by_index f₁ j % 256) off off
        (length row)
        (λ j l. ap (λ n. n % 256) (appended-apart (off + j) (inr (omega (arith, room)))))
      ∙ chars-write_row row off f bytes

  append_row-appended :
      append_row row (get_sizes_rows f) f ≡ ok (some (get_cnt_rows f), appended row f)
  unfolding append_row
  append_row-appended =
      let kept : length row == length row ≡ true = ground arith in
      rw (sizes_count, append_row) (rw size_here (rw kept refl))

  pub insert_row-appended : insert_row row f ≡ ok (some (get_cnt_rows f), appended row f)
  unfolding insert_row
  insert_row-appended =
      let fits : ltb page_size
            (total (get_sizes_rows f) + length row + 2 + length (get_sizes_rows f))
          ≡ false =
        ground (arith, room, sizes_count) in
      rw (fits, insert_row) append_row-appended

  get_row-appended : All (λ c. c < 256) row → get_row (appended row f) (get_cnt_rows f) ≡ ok row
  unfolding get_row read_row
  get_row-appended bytes =
      let inside : length row == 0 || leb (total (get_sizes_rows f) + length row) page_size ≡ true =
        ground (arith, room) in
      let same : page_size - (total (get_sizes_rows f) + length row) ≡ off = omega arith in
      rw (appended-size, appended-total, get_row) (rw (inside, same) (ap ok (appended-chars bytes)))

  -- A row that was there before.
  module _ (i : ℕ) (h : i < get_cnt_rows f) where
    within : i < length (get_sizes_rows f)
    within = omega (arith, h, sizes_count)

    kept-size : get_elem? (get_sizes_rows (appended row f)) i ≡ get_elem? (get_sizes_rows f) i
    kept-size =
        ap (λ t. get_elem? t i) appended-sizes
        ∙ get_elem?-append (get_sizes_rows f) (length row ∷ []) i within

    kept-total :
        total (take (suc i) (get_sizes_rows (appended row f)))
        ≡ total (take (suc i) (get_sizes_rows f))
    kept-total =
        ap (λ t. total (take (suc i) t)) appended-sizes
        ∙ ap total (take-append_lt (get_sizes_rows f) (length row ∷ []) i within)

    read_row-appended :
        (n : ℕ) (o : Option ℕ)
        → n ≤ total (get_sizes_rows f)
        → read_row (appended row f) n o ≡ read_row f n o
    unfolding read_row
    read_row-appended n none l = refl
    read_row-appended n (some len) l =
        let same =
          range_ext (λ j. get_by_index (appended row f) j % 256) (λ j. get_by_index f j % 256)
            (page_size - n) (page_size - n) len
            (λ j _. ap (λ n. n % 256) (appended-old (page_size - n + j) (inr (omega arith)))) in
        rw same refl

    get_row-appended_before : get_row (appended row f) i ≡ get_row f i
    unfolding get_row
    get_row-appended_before =
        rw (kept-size, kept-total, get_row)
          (read_row-appended _ (get_elem? (get_sizes_rows f) i)
            (total-take (suc i) (get_sizes_rows f)))

-- On a page with fewer than 65535 rows and room for it, `insertRow` of a row of fewer than 65536
-- `char`s returns the number of rows as the index, `getRow` returns the row at that index, and at each
-- earlier index what it returned before.
pub get_row-insert_row :
    (row : List ℕ) (f : Bytes)
    → All (λ c. c < 256) row
    → length row < 65536
    → get_cnt_rows f + 1 < 65536
    → total (get_sizes_rows f) + length row + 2 + get_cnt_rows f ≤ page_size
    → (insert_row row f ≡ ok (some (get_cnt_rows f), appended row f))
      × (get_row (appended row f) (get_cnt_rows f) ≡ ok row)
      × ((i : ℕ) → i < get_cnt_rows f → get_row (appended row f) i ≡ get_row f i)
get_row-insert_row row f bytes small count room = (
  insert_row-appended row f small count room,
  get_row-appended row f small count room bytes,
  λ i h. get_row-appended_before row f small count room i h,
)
