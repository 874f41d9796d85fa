-- ===== src/TablePage/Fixed/Rows.antt =====
-- lib/sql/fixed.cpp: the rows that the slots of a page hold, through insertions and deletions.
use native.Mathlib.Nat.{mul-le-mul_right, div-mul-le_self}
use native.Mathlib.Decide.{dec_lt, ℕ_discrete}
use relvec_db.Common.{
  ℕ, zero, suc, ◌+◌, ◌*◌, ◌/◌, ◌<◌, ◌≤◌, ◌≡◌, ◌≢◌, ◌⊎◌, inl, inr, refl, sym, ap, ◌∙◌, true, false,
  List, [], ◌∷◌, ◌++◌, Option, none, some, arith, length, leb, lt→ltb, ◌==◌,
}
use relvec_db.Common.Ranges.{range}
use relvec_db.Common.Outcome.{ok}
use relvec_db.Row.{Schema, Row}
use relvec_db.Marshal.{get_fixed_row_space, serialize_row, deserialize_row}
use relvec_db.Marshal.RoundTrip.{FitsRow, deserialize_row-serialize_row}
use relvec_db.Marshal.Space.{IsFixed, serialize_row-le-fixed_row_space}
use relvec_db.TablePage.{Frame, page_size, byte_at, bytes_from, write, write_bytes}
use relvec_db.TablePage.Bytes.{
  range-write_bytes, range-write_bytes-apart, write_bytes-apart, bytes_from-range, write_bytes-here,
}
use relvec_db.TablePage.Fixed.{
  get_row_space, get_row_capacity, get_row, delete_row, find_row_slot_from, find_row_slot,
  insert_row_at, insert_row,
}

-- Slot `index`, of slots of `s` bytes, holds the row.
pub record Held (schema : Schema) (row : Row) (s : ℕ) (d : Frame) (index : ℕ) : Type 0 where
  pub bytes : List ℕ
  pub serialized : serialize_row schema row ≡ ok bytes
  pub fits : length bytes < s
  pub used : d (index * s) ≡ 1
  pub held : range d (index * s + 1) (length bytes) ≡ bytes

-- A slot within the capacity lies within the page, and slots do not overlap.
slot_end : (index s : ℕ) → index < page_size / s → index * s + s ≤ page_size
slot_end index s h = omega (
  arith,
  mul-le-mul_right {m = index + 1} {n = page_size / s} s (omega arith),
  div-mul-le_self page_size s,
)

slots_apart : (i j s : ℕ) → i < j → i * s + s ≤ j * s
slots_apart i j s h = omega (arith, mul-le-mul_right {m = i + 1} {n = j} s (omega arith))

module _ (schema : Schema) (n : ℕ) (e : get_fixed_row_space schema ≡ ok n) where
  -- `getRow` reads the row that a slot holds.
  pub get_row-Held :
      (row : Row) (d : Frame) (index : ℕ)
      → FitsRow schema row
      → length row < 64
      → index < page_size / (1 + n)
      → Held schema row (1 + n) d index
      → get_row schema d index ≡ ok row
  unfolding get_row get_row_space byte_at
  get_row-Held row d index f l h held =
      let end = slot_end index (1 + n) h in
      let inside = lt→ltb (index * (1 + n)) page_size (omega arith) in
      let (bytes, eb, er) =
        deserialize_row-serialize_row schema row
          (bytes_from d (index * (1 + n) + 1 + length held.bytes)) f l in
      let same : bytes ≡ held.bytes = cc (eb, held.serialized) in
      let tail =
        bytes_from-range d (index * (1 + n) + 1) (length held.bytes) (omega (arith, held.fits)) in
      let rest = bytes_from d (index * (1 + n) + 1 + length held.bytes) in
      rw e (
        rw inside (
          rw held.used
            (rw (tail, held.held) (ap (λ t. deserialize_row schema (t ++ rest)) (sym same) ∙ er))))

  -- A slot other than the one that is written, and not reached by the write, holds its row still.
  kept :
      (row : Row) (d : Frame) (index j off : ℕ) (bytes : List ℕ)
      → Held schema row (1 + n) d j
      → j ≢ index
      → index * (1 + n) ≤ off
      → off + length bytes ≤ index * (1 + n) + (1 + n)
      → Held schema row (1 + n) (write_bytes off bytes d) j
  kept row d index j off bytes held ne a b = record {
    bytes = held.bytes;
    serialized = held.serialized;
    fits = held.fits;
    used =
        write_bytes-apart off bytes d (j * (1 + n)) (elim (dec_lt j index) [
          | yes l ↦ inl (omega (arith, slots_apart j index (1 + n) l))
          | no l ↦ inr (omega (arith, slots_apart index j (1 + n) (omega arith)))
        ])
        ∙ held.used;
    held =
        range-write_bytes-apart off bytes d (j * (1 + n) + 1) (length held.bytes)
          (elim (dec_lt j index) [
            | yes l ↦ inl (omega (arith, slots_apart j index (1 + n) l, held.fits))
            | no l ↦ inr (omega (arith, slots_apart index j (1 + n) (omega arith)))
          ])
        ∙ held.held;
  }

  -- The search finds the first slot that is not in use, if there is one within the page.
  find_row_slot_from_lem :
      (m i : ℕ) (d : Frame)
      → i + m ≡ page_size / (1 + n)
      → ((find_row_slot_from m i (1 + n) d ≡ ok none)
          × ((j : ℕ) → i ≤ j → j < page_size / (1 + n) → d (j * (1 + n)) ≢ 0))
        ⊎ ((r : ℕ) × (find_row_slot_from m i (1 + n) d ≡ ok (some r))
            × (r < page_size / (1 + n))
            × (d (r * (1 + n)) ≡ 0))
  unfolding find_row_slot_from byte_at
  find_row_slot_from_lem zero i d q = inl (refl, λ j a b. absurd (omega arith))
  find_row_slot_from_lem (suc m) i d q =
      let h : i < page_size / (1 + n) = omega arith in
      let inside = lt→ltb (i * (1 + n)) page_size (omega (arith, slot_end i (1 + n) h)) in
      elim (ℕ_discrete (d (i * (1 + n))) 0) [
        | yes z ↦ inr (i, rw inside (rw z refl), h, z)
        | no z ↦
            let busy : d (i * (1 + n)) == 0 ≡ false = ground arith in
            elim (find_row_slot_from_lem m (i + 1) d (omega arith)) [
              | inl (f, all) ↦ inl (
                rw inside (rw busy f),
                λ j a b. elim (ℕ_discrete j i) [ yes k ↦ rw k z | no k ↦ all j (omega arith) b ],
              )
              | inr (r, f, l, free) ↦ inr (r, rw inside (rw busy f), l, free)
            ]
      ]

  find_row_slot_lem :
      (d : Frame) → find_row_slot schema d ≡ find_row_slot_from (page_size / (1 + n)) 0 (1 + n) d
  unfolding find_row_slot get_row_capacity get_row_space
  find_row_slot_lem d = rw e refl

  module _ (row : Row) (f : FitsRow schema row) (l : length row < 64) (fixed : IsFixed schema) where
    -- The write of a row to a slot within the page, and what it holds then.
    insert_row_at_lem :
        (d : Frame) (index : ℕ)
        → index < page_size / (1 + n)
        → (bytes : List ℕ) × (insert_row_at schema row d (some index)
            ≡ ok (
              some index,
              write_bytes (index * (1 + n) + 1) bytes (write_bytes (index * (1 + n)) (1 ∷ []) d),
            ))
          × (length bytes ≤ n)
          × Held schema row
              (1 + n)
              (write_bytes (index * (1 + n) + 1) bytes (write_bytes (index * (1 + n)) (1 ∷ []) d))
              index
    unfolding insert_row_at get_row_space write
    insert_row_at_lem d index h =
        let end = slot_end index (1 + n) h in
        let (bytes, eb, le) = serialize_row-le-fixed_row_space schema row fixed e f l in
        let d₁ = write_bytes (index * (1 + n)) (1 ∷ []) d in
        let a : leb (index * (1 + n) + 1) page_size ≡ true = ground (arith, end) in
        let b : leb (index * (1 + n) + 1 + length bytes) page_size ≡ true =
          ground (arith, end, le) in
        (
          bytes,
          rw e (rw a (rw eb (rw b refl))),
          le,
          record {
            bytes = bytes;
            serialized = eb;
            fits = omega (arith, le);
            used =
                write_bytes-apart (index * (1 + n) + 1) bytes d₁ (index * (1 + n))
                  (inl (omega arith))
                ∙ write_bytes-here (index * (1 + n)) 1 d;
            held = range-write_bytes (index * (1 + n) + 1) bytes d₁;
          },
        )

    insert_row_cases :
        (d : Frame)
        → ((insert_row schema row d ≡ ok (none, d))
            × ((j : ℕ) → j < page_size / (1 + n) → d (j * (1 + n)) ≢ 0))
          ⊎ ((r : ℕ) × (r < page_size / (1 + n))
              × (d (r * (1 + n)) ≡ 0)
              × (insert_row schema row d ≡ insert_row_at schema row d (some r)))
    unfolding insert_row
    insert_row_cases d = elim (find_row_slot_from_lem (page_size / (1 + n)) 0 d (omega arith)) [
      | inl (q, all) ↦ inl (rw (find_row_slot_lem d, q) refl, λ j h. all j (omega arith) h)
      | inr (r, q, h, free) ↦ inr (r, h, free, rw (find_row_slot_lem d, q) refl)
    ]

    -- For a schema without string columns, a row that fits it and has fewer than 64 columns:
    -- `insertRow` either finds every slot of the page in use and leaves the page alone, or it
    -- fills a slot that was not in use, and `getRow` of that slot then returns the row.
    pub get_row-insert_row :
        (d : Frame)
        → ((insert_row schema row d ≡ ok (none, d))
            × ((j : ℕ) → j < page_size / (1 + n) → d (j * (1 + n)) ≢ 0))
          ⊎ ((index : ℕ) × (d' : Frame) × (insert_row schema row d ≡ ok (some index, d'))
              × (index < page_size / (1 + n))
              × (d (index * (1 + n)) ≡ 0)
              × (get_row schema d' index ≡ ok row))
    get_row-insert_row d = elim (insert_row_cases d) [
      | inl q ↦ inl q
      | inr (r, h, free, q) ↦
          let (bytes, done, le, held) = insert_row_at_lem d r h in
          inr (r, _, q ∙ done, h, free, get_row-Held row _ r f l h held)
    ]

    -- For a schema without string columns, and after an insertion that returned of a row that fits
    -- it and has fewer than 64 columns, a slot within the capacity that held a row holds it still.
    pub insert_row-Held :
        (d d' : Frame) (o : Option ℕ) (row' : Row) (j : ℕ)
        → insert_row schema row d ≡ ok (o, d')
        → j < page_size / (1 + n)
        → Held schema row' (1 + n) d j
        → Held schema row' (1 + n) d' j
    insert_row-Held d d' o row' j q h held = elim (insert_row_cases d) [
      | inl (done, all) ↦ let same : d ≡ d' = cc (q, done) in rw (sym same) held
      | inr (r, l', free, done) ↦
          let (bytes, at, le, new) = insert_row_at_lem d r l' in
          let same : write_bytes (r * (1 + n) + 1) bytes (write_bytes (r * (1 + n)) (1 ∷ []) d)
              ≡ d' =
            cc (q, done, at) in
          let ne : j ≢ r = (λ k.
            let u = held.used in
            let z : d (j * (1 + n)) ≡ 0 = rw k free in absurd (omega (arith, u, z))) in
          let first = kept row' d r j (r * (1 + n)) (1 ∷ []) held ne (omega arith) (omega arith) in
          rw (sym same)
            (kept row' _ r j (r * (1 + n) + 1) bytes first ne (omega arith) (omega (arith, le)))
    ]

  slot_written :
      (index : ℕ) → index < page_size / (1 + n) → leb (index * (1 + n) + 1) page_size ≡ true
  slot_written index h = let end = slot_end index (1 + n) h in ground (arith, end)

  delete_row_lem :
      (d : Frame) (index : ℕ)
      → index < page_size / (1 + n)
      → delete_row schema index d ≡ ok (write_bytes (index * (1 + n)) (0 ∷ []) d)
  unfolding delete_row get_row_space write
  delete_row_lem d index h = rw e (rw (slot_written index h) refl)

  -- `deleteRow` of a slot within the capacity returns, and `getRow` of it then returns the empty
  -- row.
  pub get_row-delete_row :
      (d : Frame) (index : ℕ)
      → index < page_size / (1 + n)
      → (d' : Frame) × (delete_row schema index d ≡ ok d') × (get_row schema d' index ≡ ok [])
  unfolding get_row get_row_space byte_at
  get_row-delete_row d index h =
      let end = slot_end index (1 + n) h in
      let inside = lt→ltb (index * (1 + n)) page_size (omega (arith, end)) in
      (
        write_bytes (index * (1 + n)) (0 ∷ []) d,
        delete_row_lem d index h,
        rw e (rw inside (rw (write_bytes-here (index * (1 + n)) 0 d) refl)),
      )

  -- After a `deleteRow` that returned of a slot within the capacity, a row that another slot
  -- within the capacity held is held there still.
  pub delete_row-Held :
      (d d' : Frame) (index j : ℕ) (row' : Row)
      → index < page_size / (1 + n)
      → delete_row schema index d ≡ ok d'
      → j < page_size / (1 + n)
      → j ≢ index
      → Held schema row' (1 + n) d j
      → Held schema row' (1 + n) d' j
  delete_row-Held d d' index j row' h done hj ne held =
      let same : write_bytes (index * (1 + n)) (0 ∷ []) d ≡ d' =
        cc (done, delete_row_lem d index h) in
      rw (sym same)
        (kept row' d index j (index * (1 + n)) (0 ∷ []) held ne (omega arith) (omega arith))
