-- ===== src/Query/Join/Sound.antt =====
-- lib/sql/interpreter.cpp, `executeJoin`: every row of the join is that of a pair that agrees.
use mathlib.Core.Path.{subst}
use relvec_db.Common.{
  ℕ, ◌≡◌, refl, ◌⊎◌, inl, inr, List, [], ◌∷◌, ◌++◌, length, All, All-append, arith,
}
use relvec_db.Common.Outcome.{ok, >>=-eq-ok}
use relvec_db.Row.{Schema, Row}
use relvec_db.Query.Join.{join_pair, join_with, join_rows}
use relvec_db.Query.Join.Pair.{IsJoined, join_pair-IsJoined}

-- A row is one of a list.
abbrev pub IsIn : Row → List Row → Type 0
IsIn row [] = ⊥
IsIn row (first ∷ rows) = (row ≡ first) ⊎ IsIn row rows

All-impl :
    {P Q : Row → Type 0} (rows : List Row) → ((row : Row) → P row → Q row) → All P rows → All Q rows
All-impl [] f h = tt
All-impl (row ∷ rows) f h = (f row h.0, All-impl rows f h.1)

abbrev pub HasLength : ℕ → Row → Type 0
HasLength n row = length row ≡ n

-- The row comes from a pair of these rows that agrees.
abbrev pub IsOfPair : Schema → Schema → List Row → List Row → Row → Type 0
IsOfPair left right left_rows right_rows row =
    (l : Row) × (r : Row) × IsIn l left_rows × IsIn r right_rows × IsJoined left right l r row

module _ (left right : Schema) where
  join_with-IsOfPair :
      (l : Row) (right_rows : List Row) {rows : List Row}
      → length l ≡ length left
      → All (HasLength (length right)) right_rows
      → join_with left right l right_rows ≡ ok rows
      → All (IsOfPair left right (l ∷ []) right_rows) rows
  unfolding join_with
  join_with-IsOfPair l [] {rows} el h e =
      let none_added : [] ≡ rows = ground (arith, e) in
      subst (λ rs. All (IsOfPair left right (l ∷ []) []) rs) none_added tt
  join_with-IsOfPair l (r ∷ right_rows) {rows} el h e =
      let (first, ef, e₁) = >>=-eq-ok (join_pair left right l r) _ e in
      let (rest, er, e₂) = >>=-eq-ok (join_with left right l right_rows) _ e₁ in
      let both : first ++ rest ≡ rows = ground (arith, e₂) in
      subst (λ rs. All (IsOfPair left right (l ∷ []) (r ∷ right_rows)) rs) both
        (All-append _ first rest
          (All-impl first (λ row is. (l, r, inl refl, inl refl, is))
            (join_pair-IsJoined left right l r el h.0 ef))
          (All-impl rest (λ row is. (is.0, is.1, is.2, inr is.3, is.4))
            (join_with-IsOfPair l right_rows el h.1 er)))

  -- Each row of a join that returned comes from a pair of rows that agrees.
  pub join_rows-IsOfPair :
      (left_rows right_rows : List Row) {rows : List Row}
      → All (HasLength (length left)) left_rows
      → All (HasLength (length right)) right_rows
      → join_rows left right left_rows right_rows ≡ ok rows
      → All (IsOfPair left right left_rows right_rows) rows
  unfolding join_rows
  join_rows-IsOfPair [] right_rows {rows} hl hr e =
      let none_added : [] ≡ rows = ground (arith, e) in
      subst (λ rs. All (IsOfPair left right [] right_rows) rs) none_added tt
  join_rows-IsOfPair (l ∷ left_rows) right_rows {rows} hl hr e =
      let (first, ef, e₁) = >>=-eq-ok (join_with left right l right_rows) _ e in
      let (rest, er, e₂) = >>=-eq-ok (join_rows left right left_rows right_rows) _ e₁ in
      let both : first ++ rest ≡ rows = ground (arith, e₂) in
      subst (λ rs. All (IsOfPair left right (l ∷ left_rows) right_rows) rs) both
        (All-append _ first rest
          (All-impl first (λ row is. (is.0, is.1, only is.2, is.3, is.4))
            (join_with-IsOfPair l right_rows hl.0 hr ef))
          (All-impl rest (λ row is. (is.0, is.1, inr is.2, is.3, is.4))
            (join_rows-IsOfPair left_rows right_rows hl.1 hr er)))
    where
      only : {row : Row} → IsIn row (l ∷ []) → IsIn row (l ∷ left_rows)
      only (inl same) = inl same
      only (inr h) = absurd h
