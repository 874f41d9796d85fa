-- ===== src/TablePage/Tests.antt =====
-- Concrete pages of lib/sql/fixed.cpp and lib/sql/flexible.cpp, and the laws at them.
use relvec_db.Common.{
  ℕ, ◌*◌, ◌/◌, ◌<◌, ◌≡◌, ◌≢◌, ◌⊎◌, refl, List, [], ◌∷◌, none, some, arith, ◌==◌, if◌then◌else◌,
}
use relvec_db.Common.Outcome.{ok, fail, ◌>>=◌}
use relvec_db.Row.{ColumnType, Schema, Row, null, boolean}
use relvec_db.Common.{Bool, true, false}
use relvec_db.Common.Ranges.{range}
use relvec_db.Marshal.{get_fixed_row_space, serialize_row}
use relvec_db.TablePage.{Frame, page_size}
use relvec_db.TablePage.Fixed.{get_row, insert_row, delete_row}
use relvec_db.TablePage.Flexible
use relvec_db.TablePage.Flexible.{sum}
use relvec_db.TablePage.Flexible.Keep.{get_row-insert_row_before}
use relvec_db.TablePage.Flexible.Append.{appended, get_row-append_row}
use relvec_db.TablePage.Fixed.Rows.{
  Held, get_row-Held, get_row-insert_row, insert_row-Held, get_row-delete_row, delete_row-Held,
}

abbrev schema : Schema
schema = record { name = b'n' ∷ []; type = ColumnType.boolean; len = 0 } ∷ []

abbrev row : Bool → Row
row b = boolean b ∷ []

-- Slots of ten bytes: the first holds `true`, the others are not in use.
abbrev one_row : Frame
one_row j = if j == 0 then 1 else if j == 9 then 1 else 0

fixed_space : get_fixed_row_space schema ≡ ok 9
unfolding get_fixed_row_space
fixed_space = refl

one_row-Held : Held schema (row true) 10 one_row 0
unfolding serialize_row range
one_row-Held = record {
  bytes = 0 ∷ 0 ∷ 0 ∷ 0 ∷ 0 ∷ 0 ∷ 0 ∷ 0 ∷ 1 ∷ [];
  serialized = refl;
  fits = omega arith;
  used = refl;
  held = refl;
}

get_row-Held_example : get_row schema one_row 0 ≡ ok (row true)
get_row-Held_example =
    get_row-Held schema 9 fixed_space (row true) one_row 0 (tt, tt) (omega arith) (omega arith)
      one_row-Held

get_row-insert_row_example :
    ((insert_row schema (row false) one_row ≡ ok (none, one_row))
      × ((j : ℕ) → j < page_size / 10 → one_row (j * 10) ≢ 0))
    ⊎ ((index : ℕ) × (d : Frame) × (insert_row schema (row false) one_row ≡ ok (some index, d))
        × (index < page_size / 10)
        × (one_row (index * 10) ≡ 0)
        × (get_row schema d index ≡ ok (row false)))
get_row-insert_row_example =
    get_row-insert_row schema 9 fixed_space (row false) (tt, tt) (omega arith) ((λ e. cc), tt)
      one_row

abbrev inserted_frame : Frame
inserted_frame = elim (insert_row schema (row false) one_row) [ ok r ↦ r.1 | fail e ↦ one_row ]

insert_row-Held_example : Held schema (row true) 10 inserted_frame 0
unfolding insert_row
insert_row-Held_example =
    insert_row-Held schema 9 fixed_space (row false) (tt, tt) (omega arith) ((λ e. cc), tt) one_row
      inserted_frame (some 1) (row true) 0 refl (omega arith) one_row-Held

get_row-delete_row_example :
    (d : Frame) × (delete_row schema 1 one_row ≡ ok d) × (get_row schema d 1 ≡ ok [])
get_row-delete_row_example = get_row-delete_row schema 9 fixed_space one_row 1 (omega arith)

-- A second row, which is deleted.
abbrev deleted_frame : Frame
deleted_frame = elim (delete_row schema 1 inserted_frame) [ ok d ↦ d | fail e ↦ one_row ]

delete_row-Held_example : Held schema (row true) 10 deleted_frame 0
unfolding delete_row insert_row get_fixed_row_space serialize_row
delete_row-Held_example =
    delete_row-Held schema 9 fixed_space inserted_frame deleted_frame 1 0 (row true) (omega arith)
      refl (omega arith) (λ e. absurd (omega arith))
      (insert_row-Held schema 9 fixed_space (row false) (tt, tt) (omega arith) ((λ e. cc), tt)
        one_row inserted_frame (some 1) (row true) 0 refl (omega arith) one_row-Held)

abbrev row_true_bytes : List ℕ
row_true_bytes = 0 ∷ 0 ∷ 0 ∷ 0 ∷ 0 ∷ 0 ∷ 0 ∷ 0 ∷ 1 ∷ []

abbrev empty_page : Frame
empty_page j = 0

get_row-append_row_example :
    (Flexible.insert_row schema (row true) empty_page
      ≡ ok (some 0, appended row_true_bytes empty_page))
    × (Flexible.get_row schema (appended row_true_bytes empty_page) 0 ≡ ok (row true))
unfolding serialize_row range sum
get_row-append_row_example =
    get_row-append_row schema (row true) empty_page (tt, tt) (omega arith) row_true_bytes refl
      (omega arith) (omega arith) (omega arith)

-- Rows `true` and `false`, after which row 0 is deleted: row 1 is then read from the place of row 0.
deleted_first_run :
    (Flexible.insert_row schema (row true) empty_page >>= λ a.
    Flexible.insert_row schema (row false) a.1 >>= λ b.
    Flexible.delete_row 0 b.1 >>= λ d. Flexible.get_row schema d 1)
    ≡ ok (row true)
unfolding Flexible.insert_row Flexible.delete_row Flexible.get_row
deleted_first_run = refl

-- Rows `true` and NULL, after which row 1 is deleted: row 0 is then read as NULL.
deleted_last_run :
    (Flexible.insert_row schema (row true) empty_page >>= λ a.
    Flexible.insert_row schema (null ∷ []) a.1 >>= λ b.
    Flexible.delete_row 1 b.1 >>= λ d. Flexible.get_row schema d 0)
    ≡ ok (null ∷ [])
unfolding Flexible.insert_row Flexible.delete_row Flexible.get_row
deleted_last_run = refl

abbrev true_page : Frame
true_page = elim (Flexible.insert_row schema (row true) empty_page) [
  | ok r ↦ r.1
  | fail e ↦ empty_page
]

abbrev row_false_bytes : List ℕ
row_false_bytes = 0 ∷ 0 ∷ 0 ∷ 0 ∷ 0 ∷ 0 ∷ 0 ∷ 0 ∷ 0 ∷ []

get_row-insert_row_before_example :
    Flexible.get_row schema
      (elim (Flexible.insert_row schema (row false) true_page) [ ok r ↦ r.1 | fail e ↦ true_page ])
      0
    ≡ Flexible.get_row schema true_page 0
unfolding serialize_row range sum Flexible.insert_row
get_row-insert_row_before_example =
    get_row-insert_row_before schema (row false) true_page _ (some 1) row_false_bytes 0 (tt, tt)
      (omega arith) refl (omega arith) (omega arith) (omega arith) refl (omega arith)
