-- ===== src/TablePage/Flexible/Append.antt =====
-- lib/sql/flexible.cpp, `insertRow`: the row that it appends, and the rows that were there.
use relvec_db.Common.{
  get_elem?-last, take-last, ℕ, suc, ◌+◌, ◌-◌, ◌%◌, ◌<◌, ◌≤◌, ◌≡◌, refl, sym, ap, ◌∙◌, inl, inr,
  true, false, List, [], ◌∷◌, ◌++◌, some, arith, length, take, get_elem?, ltb, leb, ◌==◌,
}
use mathlib.Core.Path.{ap₂}
use relvec_db.Common.Ranges.{range, range_split, length-range}
use relvec_db.Common.Outcome.{ok}
use relvec_db.Row.{Schema, Row}
use relvec_db.Marshal
use relvec_db.Marshal.{serialize_row, deserialize_row}
use relvec_db.Marshal.RoundTrip.{
  FitsRow, written, serialize_row-written, length-written, deserialize_row-serialize_row,
}
use relvec_db.Marshal.Space.{get_row_space-serialize_row}
use relvec_db.TablePage.{Frame, page_size, bytes_from, write, write_bytes}
use relvec_db.TablePage.Bytes.{
  range-write_bytes, range-write_bytes-apart, write_bytes-apart, bytes_from-range, write_bytes-here,
}
use relvec_db.TablePage.Flexible.{
  read_row, get_sizes_rows, sum, set_by_index, get_row, insert_row, append_row,
}

sum-append : (xs : List ℕ) (n : ℕ) → sum (xs ++ (n ∷ [])) ≡ sum xs + n
unfolding sum
sum-append [] n = omega arith
sum-append (x ∷ xs) n = omega (arith, sum-append xs n)

-- The frame after a row of these bytes is appended.
abbrev pub appended : List ℕ → Frame → Frame
appended bytes d = write_bytes 0 ((d 0 + 1) % 256 ∷ []) (
    write_bytes (1 + d 0) (length bytes % 256 ∷ [])
      (write_bytes (page_size - sum (get_sizes_rows d) - length bytes) bytes d))

module _ (bytes : List ℕ) (d : Frame) (count : d 0 + 1 < 256) (small : length bytes < 256)
    (room : sum (get_sizes_rows d) + length bytes + 2 + d 0 ≤ page_size) where
  abbrev off : ℕ
  off = page_size - sum (get_sizes_rows d) - length bytes

  pub appended-count : appended bytes d 0 ≡ d 0 + 1
  appended-count = write_bytes-here 0 ((d 0 + 1) % 256) _ ∙ (omega (arith, count))

  abbrev d₁ : Frame
  d₁ = write_bytes off bytes d

  abbrev d₂ : Frame
  d₂ = write_bytes (1 + d 0) (length bytes % 256 ∷ []) d₁

  old_sizes : range (appended bytes d) 1 (d 0) ≡ get_sizes_rows d
  old_sizes =
      range-write_bytes-apart 0 ((d 0 + 1) % 256 ∷ []) d₂ 1 (d 0) (inr (omega arith))
      ∙ range-write_bytes-apart (1 + d 0) (length bytes % 256 ∷ []) d₁ 1 (d 0) (inl (omega arith))
      ∙ range-write_bytes-apart off bytes d 1 (d 0) (inl (omega (arith, room)))

  new_size : range (appended bytes d) (1 + d 0) 1 ≡ length bytes ∷ []
  unfolding range
  new_size =
      ap (λ b. b ∷ [])
        (write_bytes-apart 0 ((d 0 + 1) % 256 ∷ []) d₂ (1 + d 0) (inr (omega arith))
          ∙ write_bytes-here (1 + d 0) (length bytes % 256) d₁
          ∙ omega (arith, small))

  -- The sizes after an append: one more at the end.
  pub appended-sizes : get_sizes_rows (appended bytes d) ≡ get_sizes_rows d ++ (length bytes ∷ [])
  appended-sizes =
      rw appended-count (range_split (appended bytes d) 1 (d 0) 1 ∙ ap₂ ◌++◌ old_sizes new_size)

  -- The bytes of the new row.
  appended-bytes : range (appended bytes d) off (length bytes) ≡ bytes
  appended-bytes =
      range-write_bytes-apart 0 ((d 0 + 1) % 256 ∷ []) d₂ off (length bytes)
        (inr (omega (arith, room)))
      ∙ range-write_bytes-apart (1 + d 0) (length bytes % 256 ∷ []) d₁ off (length bytes)
          (inr (omega (arith, room)))
      ∙ range-write_bytes off bytes d

  -- The bytes of the rows that were there.
  pub appended-old :
      (i n : ℕ)
      → page_size - sum (get_sizes_rows d) ≤ i
      → range (appended bytes d) i n ≡ range d i n
  appended-old i n h =
      range-write_bytes-apart 0 ((d 0 + 1) % 256 ∷ []) d₂ i n (inr (omega (arith, room)))
      ∙ range-write_bytes-apart (1 + d 0) (length bytes % 256 ∷ []) d₁ i n
          (inr (omega (arith, room)))
      ∙ range-write_bytes-apart off bytes d i n (inr (omega (arith, room)))

  -- The entry of the new row among the sizes, and the sum up to it.
  appended-size : get_elem? (get_sizes_rows (appended bytes d)) (d 0) ≡ some (length bytes)
  appended-size =
      ap (λ t. get_elem? t (d 0)) appended-sizes
      ∙ ap (λ k. get_elem? (get_sizes_rows d ++ (length bytes ∷ [])) k)
          (sym (length-range d 1 (d 0)))
      ∙ get_elem?-last (get_sizes_rows d) (length bytes)

  appended-sum :
      sum (take (suc (d 0)) (get_sizes_rows (appended bytes d)))
      ≡ sum (get_sizes_rows d) + length bytes
  appended-sum =
      ap (λ t. sum (take (suc (d 0)) t)) appended-sizes
      ∙ ap (λ k. sum (take (suc k) (get_sizes_rows d ++ (length bytes ∷ []))))
          (sym (length-range d 1 (d 0)))
      ∙ ap sum (take-last (get_sizes_rows d) (length bytes))
      ∙ sum-append (get_sizes_rows d) (length bytes)

  -- The bytes from the new row on.
  appended-from :
      bytes_from (appended bytes d) (page_size - (sum (get_sizes_rows d) + length bytes))
      ≡ bytes ++ bytes_from (appended bytes d) (off + length bytes)
  appended-from =
      let same : page_size - (sum (get_sizes_rows d) + length bytes) ≡ off = omega arith in
      ap (bytes_from (appended bytes d)) same
      ∙ bytes_from-range (appended bytes d) off (length bytes) (omega (arith, room))
      ∙ ap (λ t. t ++ bytes_from (appended bytes d) (off + length bytes)) appended-bytes

  append_row-appended :
      (schema : Schema) (row : Row)
      → serialize_row schema row ≡ ok bytes
      → append_row schema row (length bytes) d ≡ ok (some (d 0), appended bytes d)
  unfolding append_row set_by_index write
  append_row-appended schema row eb =
      let count_eq = length-range d 1 (d 0) in
      let inside : leb (off + length bytes) page_size ≡ true = ground (arith, room) in
      let inside' : leb (1 + d 0 + 1) page_size ≡ true = ground (arith, room) in
      let kept : length bytes % 256 == length bytes ≡ true = ground (arith, small) in
      let here = write_bytes-here (1 + d 0) (length bytes % 256) d₁ in
      rw (eb, append_row) (rw count_eq (rw inside (rw inside' (rw here (rw kept refl)))))

  insert_row-appended :
      (schema : Schema) (row : Row)
      → serialize_row schema row ≡ ok bytes
      → Marshal.get_row_space schema row ≡ ok (length bytes)
      → insert_row schema row d ≡ ok (some (d 0), appended bytes d)
  unfolding insert_row
  insert_row-appended schema row eb es =
      let count_eq = length-range d 1 (d 0) in
      let fits : ltb page_size
            (sum (get_sizes_rows d) + length bytes + 2 + length (get_sizes_rows d))
          ≡ false =
        ground (arith, room, count_eq) in
      rw (es, insert_row) (rw fits (append_row-appended schema row eb))

  get_row-appended :
      (schema : Schema) (row : Row)
      → 0 < length bytes
      → deserialize_row schema (bytes ++ bytes_from (appended bytes d) (off + length bytes))
        ≡ ok row
      → get_row schema (appended bytes d) (d 0) ≡ ok row
  unfolding get_row read_row
  get_row-appended schema row h e =
      let some_size : length bytes == 0 ≡ false = ground (arith, h) in
      let inside : leb (sum (get_sizes_rows d) + length bytes) page_size ≡ true =
        ground (arith, room) in
      rw (appended-size, get_row) (rw some_size (rw appended-sum (rw inside (rw appended-from e))))

module _ (schema : Schema) (row : Row) (d : Frame) (f : FitsRow schema row)
    (l : length row < 64) where
  -- On a flexible page with fewer than 255 rows and room for it, a row that fits its schema, with
  -- fewer than 64 columns and of fewer than 256 bytes, is inserted, and `getRow` returns it at the
  -- index that `insertRow` returned.
  pub get_row-append_row :
      (bytes : List ℕ)
      → serialize_row schema row ≡ ok bytes
      → length bytes < 256
      → d 0 + 1 < 256
      → sum (get_sizes_rows d) + length bytes + 2 + d 0 ≤ page_size
      → (insert_row schema row d ≡ ok (some (d 0), appended bytes d))
        × (get_row schema (appended bytes d) (d 0) ≡ ok row)
  get_row-append_row bytes eb small count room =
      let (bytes₁, e₁, es) = get_row_space-serialize_row schema row f l in
      let (bytes₂, e₂, er) =
        deserialize_row-serialize_row schema row
          (bytes_from (appended bytes d) (off bytes d count small room + length bytes)) f l in
      let same₁ : bytes₁ ≡ bytes = cc (e₁, eb) in
      let same₂ : bytes₂ ≡ bytes = cc (e₂, eb) in
      let written_eq : written schema row ≡ bytes = cc (serialize_row-written schema row f l, eb) in
      (
        insert_row-appended bytes d count small room schema row eb
            (es ∙ ap (λ t. ok (length t)) same₁),
        get_row-appended bytes d count small room schema row
            (omega (arith, length-written schema row, ap length written_eq))
            (ap
                (λ t. deserialize_row schema (
                  t ++ bytes_from (appended bytes d) (off bytes d count small room + length bytes)))
                (sym same₂)
              ∙ er),
      )
