-- ===== src/Schema/Columns.antt =====
-- lib/sql/schema.cpp: the loop body of `deserializeSchema` on the text of one column.
use mathlib.Core.List.{append-nil}
use relvec_db.Common.{
  ℕ, ◌^◌, ◌<◌, true, false, List, [], ◌∷◌, ◌++◌, ◌≡◌, ◌≢◌, refl, ap, ◌∙◌, none, some, inl, inr,
  arith, All, All-append, Bool-cases, ◌==◌, if◌then◌else◌,
}
use relvec_db.Common.Decimal.{to_string, stoul-to_string, digits-IsNumeral, is_digit}
use relvec_db.Common.Outcome.{ok}
use relvec_db.Common.Texts.{bytes}
use relvec_db.Row.{ColumnType, ColumnSchema}
use relvec_db.Row.ColumnType.{boolean, uint64, int64, varchar, string, vector}
use relvec_db.Schema.{
  type_text, length_text, column_text, find_paren, parse_type, parse_length, parse_column,
}
use relvec_db.Schema.Tokens.{
  is_separator, IsPlain, read_word_space, read_word_end, read_word_skip, find_paren-append,
  pop_back-append,
}

-- A column that its text shows in full.
pub record IsTextual (column : ColumnSchema) : Type 0 where
  pub named : column.name ≢ []
  pub name_plain : IsPlain column.name
  pub type_named : column.type ≢ vector
  pub length_fits : column.len < 2 ^ 32

pub parse_type-type_text : (t : ColumnType) → t ≢ vector → parse_type (type_text t) ≡ ok t
unfolding parse_type type_text
parse_type-type_text boolean h = refl
parse_type-type_text uint64 h = refl
parse_type-type_text int64 h = refl
parse_type-type_text varchar h = refl
parse_type-type_text string h = refl
parse_type-type_text vector h = absurd (h refl)

-- A byte of a type's name.
abbrev IsLetter : ℕ → Type 0
IsLetter c = (is_separator c ≡ false) × ((c == b'(') ≡ false)

pub type_text-letters : (t : ColumnType) → All IsLetter (type_text t)
unfolding type_text
type_text-letters boolean = ground arith
type_text-letters uint64 = ground arith
type_text-letters int64 = ground arith
type_text-letters varchar = ground arith
type_text-letters string = ground arith
type_text-letters vector = tt

pub All-map {ℓ κ μ} :
    {A : Type ℓ} {P : A → Type κ} {Q : A → Type μ} (s : List A)
    → ((a : A) → P a → Q a)
    → All P s
    → All Q s
All-map [] f h = tt
All-map (a ∷ s) f h = (f a h.0, All-map s f h.1)

pub find_paren-type_text :
    (t : ColumnType) (len : ℕ)
    → find_paren (type_text t ++ length_text len)
      ≡ (type_text t, if len == 0 then none else some (to_string len ++ bytes ")"))
find_paren-type_text t len =
    find_paren-append (type_text t) (length_text len)
      (All-map (type_text t) (λ c h. h.1) (type_text-letters t))
    ∙ elim (Bool-cases (len == 0)) [
      | inl zero_len ↦ rw zero_len (unfold find_paren in rw append-nil refl)
      | inr positive ↦ rw positive (unfold find_paren in rw append-nil refl)
    ]

pub parse_length-text :
    (len : ℕ)
    → len < 2 ^ 32
    → parse_length (if len == 0 then none else some (to_string len ++ bytes ")")) ≡ ok len
unfolding parse_length
parse_length-text len h = elim (Bool-cases (len == 0)) [
  | inl zero_len ↦ rw zero_len (ground arith)
  | inr positive ↦ rw positive (
      rw (pop_back-append (to_string len) b')', stoul-to_string len (omega arith))
        (ap ok (omega arith)))
]

digit_plain : (c : ℕ) → is_digit c ≡ true → is_separator c ≡ false
digit_plain c h = ground arith

pub type_part-IsPlain : (t : ColumnType) (len : ℕ) → IsPlain (type_text t ++ length_text len)
type_part-IsPlain t len =
    All-append _ (type_text t) (length_text len)
      (All-map (type_text t) (λ c h. h.0) (type_text-letters t))
      (elim (Bool-cases (len == 0)) [
        | inl zero_len ↦ rw zero_len tt
        | inr positive ↦ rw positive (
          refl,
          All-append _ (to_string len) (bytes ")")
              (All-map (to_string len) digit_plain (digits-IsNumeral 20 len)) (refl, tt),
        )
      ])

pub parse_column-text :
    {column : ColumnSchema} → IsTextual column → parse_column (column_text column) ≡ ok column
unfolding parse_column column_text
parse_column-text {column} h =
    let part = type_text column.type ++ length_text column.len in
    rw
      (
        read_word_space column.name part h.named h.name_plain,
        read_word_end part (type_part-IsPlain column.type column.len),
        find_paren-type_text column.type column.len,
        parse_length-text column.len h.length_fits,
        parse_type-type_text column.type h.type_named,
      )
      refl

pub parse_column-space : (s : List ℕ) → parse_column (b' ' ∷ s) ≡ parse_column s
unfolding parse_column
parse_column-space s = rw (read_word_skip s) refl
