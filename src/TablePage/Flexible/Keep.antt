-- ===== src/TablePage/Flexible/Keep.antt =====
-- lib/sql/flexible.cpp, `insertRow`: the rows that were in the page before.
use relvec_db.Common.{
  get_elem?-append, take-append_lt, ℕ, zero, suc, ◌+◌, ◌-◌, ◌<◌, ◌≤◌, ◌≡◌, refl, ap, ◌∙◌, List, [],
  ◌∷◌, Option, none, some, arith, length, take, get_elem?,
}
use relvec_db.Common.Ranges.{length-range}
use relvec_db.Common.Outcome.{ok}
use relvec_db.Row.{Schema, Row}
use relvec_db.Marshal.{serialize_row}
use relvec_db.Marshal.RoundTrip.{FitsRow}
use relvec_db.TablePage.{Frame, page_size, bytes_from}
use relvec_db.TablePage.Flexible.{read_row, get_sizes_rows, sum, get_row, insert_row}
use relvec_db.TablePage.Flexible.Append.{get_row-append_row, appended, appended-old, appended-sizes}

sum-take : (i : ℕ) (xs : List ℕ) → sum (take i xs) ≤ sum xs
unfolding sum
sum-take zero xs = omega arith
sum-take (suc i) [] = omega arith
sum-take (suc i) (x ∷ xs) = omega (arith, sum-take i xs)

read_row-same :
    (schema : Schema) (d d' : Frame) (n : ℕ) (o : Option ℕ)
    → bytes_from d (page_size - n) ≡ bytes_from d' (page_size - n)
    → read_row schema d n o ≡ read_row schema d' n o
unfolding read_row
read_row-same schema d d' n none e = refl
read_row-same schema d d' n (some len) e = rw e refl

module _ (bytes : List ℕ) (d : Frame) (count : d 0 + 1 < 256) (small : length bytes < 256)
    (room : sum (get_sizes_rows d) + length bytes + 2 + d 0 ≤ page_size) (schema : Schema) (i : ℕ)
    (h : i < d 0) where
  within : i < length (get_sizes_rows d)
  within = omega (arith, h, length-range d 1 (d 0))

  kept-size : get_elem? (get_sizes_rows (appended bytes d)) i ≡ get_elem? (get_sizes_rows d) i
  kept-size =
      ap (λ t. get_elem? t i) (appended-sizes bytes d count small room)
      ∙ get_elem?-append (get_sizes_rows d) (length bytes ∷ []) i within

  kept-sum :
      sum (take (suc i) (get_sizes_rows (appended bytes d))) ≡ sum (take (suc i) (get_sizes_rows d))
  kept-sum =
      ap (λ t. sum (take (suc i) t)) (appended-sizes bytes d count small room)
      ∙ ap sum (take-append_lt (get_sizes_rows d) (length bytes ∷ []) i within)

  kept-from :
      bytes_from (appended bytes d) (page_size - sum (take (suc i) (get_sizes_rows d)))
      ≡ bytes_from d (page_size - sum (take (suc i) (get_sizes_rows d)))
  unfolding bytes_from
  kept-from =
      appended-old bytes d count small room _ _ (omega (arith, sum-take (suc i) (get_sizes_rows d)))

  get_row-appended_before : get_row schema (appended bytes d) i ≡ get_row schema d i
  unfolding get_row
  get_row-appended_before =
      rw (kept-size, kept-sum, get_row)
        (read_row-same schema (appended bytes d) d (sum (take (suc i) (get_sizes_rows d)))
          (get_elem? (get_sizes_rows d) i) kept-from)

-- On a flexible page with fewer than 255 rows and room for it, and after an insertion that
-- returned of a row that fits its schema, with fewer than 64 columns and of fewer than 256 bytes,
-- `getRow` of each row that was there before returns what it returned before.
pub get_row-insert_row_before :
    (schema : Schema) (row : Row) (d d' : Frame) (o : Option ℕ) (bytes : List ℕ) (i : ℕ)
    → FitsRow schema row
    → length row < 64
    → serialize_row schema row ≡ ok bytes
    → length bytes < 256
    → d 0 + 1 < 256
    → sum (get_sizes_rows d) + length bytes + 2 + d 0 ≤ page_size
    → insert_row schema row d ≡ ok (o, d')
    → i < d 0
    → get_row schema d' i ≡ get_row schema d i
get_row-insert_row_before schema row d d' o bytes i f l eb small count room e h =
    let (done, read) = get_row-append_row schema row d f l bytes eb small count room in
    let same : d' ≡ appended bytes d = cc (done, e) in
    ap (λ t. get_row schema t i) same ∙ get_row-appended_before bytes d count small room schema i h
