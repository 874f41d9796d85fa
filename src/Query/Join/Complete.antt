-- ===== src/Query/Join/Complete.antt =====
-- lib/sql/interpreter.cpp, `executeJoin`: every pair that agrees has its row in the join.
use mathlib.Core.Path.{subst}
use relvec_db.Common.{
  ◌≡◌, refl, sym, ◌∙◌, inl, inr, true, Bool-cases, List, [], ◌∷◌, ◌++◌, length, All, arith,
}
use relvec_db.Common.Outcome.{ok, >>=-eq-ok}
use relvec_db.Comparator.{equal, comparator, compare_rows}
use relvec_db.Comparator.Order.{compare_rows-equal}
use relvec_db.Row.{Schema, Value, Row}
use relvec_db.Query.Join.{is_common, common_columns, is_match, join_pair, join_with, join_rows}
use relvec_db.Query.Join.Columns.{
  value_at, extract_value-value_at, member, is_common-member, value_at-member,
}
use relvec_db.Query.Join.Pair.{IsJoined, join_row-values}
use relvec_db.Query.Join.Sound.{IsIn}

common_columns-member :
    (left right : Schema) → All (λ c. member left c ≡ true) (common_columns left right)
unfolding common_columns
common_columns-member left [] = tt
common_columns-member left (c ∷ right) = elim (Bool-cases (is_common left c)) [
  | inl common ↦
      rw common (sym (is_common-member left c) ∙ common, common_columns-member left right)
  | inr new ↦ rw new (common_columns-member left right)
]

-- A value compares as equal with itself.
comparator_self : (v : Value) → comparator (v ∷ []) (v ∷ []) [] ≡ ok equal
comparator_self v = unfold compare_rows in (compare_rows-equal (v ∷ []) (v ∷ [])).1 refl

-- The two rows agree on the columns that they share.
abbrev pub Agree : Schema → Schema → Row → Row → Type 0
Agree left right l r = All (λ c. value_at l left c ≡ value_at r right c) (common_columns left right)

module _ (left right : Schema) (l r : Row) (el : length l ≡ length left)
    (er : length r ≡ length right) where
  is_match-true :
      (common : Schema)
      → All (λ c. member left c ≡ true) common
      → All (λ c. value_at l left c ≡ value_at r right c) common
      → is_match left right common l r ≡ ok true
  unfolding is_match
  is_match-true [] m h = refl
  is_match-true (c ∷ common) m h =
      let (v, e) = value_at-member l left c el m.0 in
      rw
        (
          extract_value-value_at l left c el,
          extract_value-value_at r right c er,
          ← h.0,
          e,
          comparator_self v,
          is_match-true common m.1 h.1,
        )
        refl

  join_pair-row :
      Agree left right l r
      → (row : Row) × (join_pair left right l r ≡ ok (row ∷ [])) × IsJoined left right l r row
  unfolding join_pair
  join_pair-row h =
      let (row, made, is) = join_row-values left right l r el er h in
      (
        row,
        rw (is_match-true (common_columns left right) (common_columns-member left right) h, made)
            refl,
        is,
      )

IsIn-append_left : (row : Row) (s t : List Row) → IsIn row s → IsIn row (s ++ t)
IsIn-append_left row [] t h = absurd h
IsIn-append_left row (first ∷ s) t (inl same) = inl same
IsIn-append_left row (first ∷ s) t (inr h) = inr (IsIn-append_left row s t h)

IsIn-append_right : (row : Row) (s t : List Row) → IsIn row t → IsIn row (s ++ t)
IsIn-append_right row [] t h = h
IsIn-append_right row (first ∷ s) t h = inr (IsIn-append_right row s t h)

module _ (left right : Schema) (l r : Row) (el : length l ≡ length left)
    (er : length r ≡ length right) (agree : Agree left right l r) where
  -- A row of the pair among these rows.
  abbrev pub Found : List Row → Type 0
  Found rows = (row : Row) × IsIn row rows × IsJoined left right l r row

  join_with-Found :
      (right_rows : List Row) {rows : List Row}
      → IsIn r right_rows
      → join_with left right l right_rows ≡ ok rows
      → Found rows
  unfolding join_with
  join_with-Found [] h e = absurd h
  join_with-Found (first ∷ right_rows) {rows} h e =
      let (some_rows, ef, e₁) = >>=-eq-ok (join_pair left right l first) _ e in
      let (rest, er', e₂) = >>=-eq-ok (join_with left right l right_rows) _ e₁ in
      let both : some_rows ++ rest ≡ rows = ground (arith, e₂) in
      subst Found both (elim h [
        | inl same ↦
            let (row, made, is) = join_pair-row left right l r el er agree in
            let made' : join_pair left right l first ≡ ok (row ∷ []) =
              subst (λ q. join_pair left right l q ≡ ok (row ∷ [])) same made in
            let added : row ∷ [] ≡ some_rows = ground (arith, made', ef) in
            (row, subst (λ s. IsIn row (s ++ rest)) added (inl refl), is)
        | inr later ↦
            let (row, inside, is) = join_with-Found right_rows later er' in
            (row, IsIn-append_right row some_rows rest inside, is)
      ])

  -- Where a row on the left and one on the right have the lengths of their schemas and agree on
  -- the columns that the schemas share, a join that returned has a row that has the values of
  -- both.
  pub join_rows-Found :
      (left_rows right_rows : List Row) {rows : List Row}
      → IsIn l left_rows
      → IsIn r right_rows
      → join_rows left right left_rows right_rows ≡ ok rows
      → Found rows
  unfolding join_rows
  join_rows-Found [] right_rows hl hr e = absurd hl
  join_rows-Found (first ∷ left_rows) right_rows {rows} hl hr e =
      let (some_rows, ef, e₁) = >>=-eq-ok (join_with left right first right_rows) _ e in
      let (rest, er', e₂) = >>=-eq-ok (join_rows left right left_rows right_rows) _ e₁ in
      let both : some_rows ++ rest ≡ rows = ground (arith, e₂) in
      subst Found both (elim hl [
        | inl same ↦
            let (row, inside, is) = join_with-Found right_rows hr (rw same ef) in
            (row, IsIn-append_left row some_rows rest inside, is)
        | inr later ↦
            let (row, inside, is) = join_rows-Found left_rows right_rows later hr er' in
            (row, IsIn-append_right row some_rows rest inside, is)
      ])
