-- ===== src/Query/Join/Pair.antt =====
-- lib/sql/interpreter.cpp, `executeJoin`: what a pair of rows adds to the join.
use mathlib.Core.Path.{subst}
use relvec_db.Common.{
  ◌≡◌, refl, ap, sym, ◌∙◌, inl, inr, Bool, true, false, ◌&&◌, Bool-cases, Option, none, some, List,
  [], ◌∷◌, if◌then◌else◌, length, All, All-append, arith,
}
use relvec_db.Common.Outcome.{Outcome, ok, ◌>>=◌, >>=-eq-ok}
use relvec_db.Comparator.{Sign, less, equal, greater, comparator, compare_rows}
use relvec_db.Comparator.Order.{compare_rows-equal}
use relvec_db.Row.{ColumnSchema, Schema, Value, Row}
use relvec_db.Query.Join.{
  column_eq, extract_value, is_common, common_columns, right_columns, value_of, is_equal, is_match,
  join_row, join_pair, result_columns,
}
use relvec_db.Query.Join.Columns.{
  column_eq_refl, value_at, extract_value-value_at, member, Has, value_at-member,
}
use relvec_db.Query.Join.Rows.{joined_value-not_member, first_some, join_row-IsRow}

All-right_columns :
    (P : ColumnSchema → Type 0) (left right : Schema)
    → All P right
    → All P (right_columns left right)
unfolding right_columns
All-right_columns P left [] h = tt
All-right_columns P left (c ∷ right) h = elim (Bool-cases (is_common left c)) [
  | inl common ↦ rw common (All-right_columns P left right h.1)
  | inr new ↦ rw new (h.0, All-right_columns P left right h.1)
]

All-map :
    {P Q : ColumnSchema → Type 0} (s : Schema)
    → ((c : ColumnSchema) → P c → Q c)
    → All P s
    → All Q s
All-map [] f h = tt
All-map (c ∷ s) f h = (f c h.0, All-map s f h.1)

-- A schema has its own columns.
All-member : (s : Schema) → All (λ c. member s c ≡ true) s
unfolding member
All-member [] = tt
All-member (d ∷ s) = (
  rw (column_eq_refl d) refl,
  All-map s
      (λ c m. elim (Bool-cases (column_eq d c)) [
        | inl same ↦ rw same refl
        | inr apart ↦ rw apart m
      ])
      (All-member s),
)

same_value :
    (x y : Value) (sign : Sign) (b : Bool)
    → comparator (x ∷ []) (y ∷ []) [] ≡ ok sign
    → is_equal sign && b ≡ true
    → (x ≡ y) × (b ≡ true)
same_value x y less b e h = cc
same_value x y greater b e h = cc
same_value x y equal b e h =
    (cc ((compare_rows-equal (x ∷ []) (y ∷ [])).0 (unfold compare_rows in e)), h)

agree_step :
    (o p : Option Value) (rest : Outcome Bool)
    → (do
      x ← value_of o
      y ← value_of p
      sign ← comparator (x ∷ []) (y ∷ []) []
      b ← rest
      ok (is_equal sign && b))
      ≡ ok true
    → (o ≡ p) × (rest ≡ ok true)
agree_step none p rest e = cc
agree_step (some x) none rest e = cc
agree_step (some x) (some y) rest e =
    let (sign, es, e₁) = >>=-eq-ok (comparator (x ∷ []) (y ∷ []) []) _ e in
    let (b, eb, e₂) = >>=-eq-ok rest _ e₁ in
    let (same, true_b) = same_value x y sign b es (ground (arith, e₂)) in
    (ap some same, eb ∙ ap ok true_b)

-- A row that has the values of both rows under the columns of both, where the two agree on the
-- columns that they share.
pub record IsJoined (left right : Schema) (l r row : Row) : Type 0 where
  pub values :
      (c : ColumnSchema)
      → extract_value row (result_columns left right) c
        ≡ ok (first_some (value_at l left c) (value_at r right c))
  pub agree : All (λ c. value_at l left c ≡ value_at r right c) (common_columns left right)

module _ (left right : Schema) (l r : Row) (el : length l ≡ length left)
    (er : length r ≡ length right) where
  pub result_columns-Has :
      All
        (λ c. Has (first_some (value_at l left c) (value_at r right c)))
        (result_columns left right)
  result_columns-Has =
      All-append _ left (right_columns left right)
        (All-map left (λ c m. from_left (value_at r right c) (value_at-member l left c el m))
          (All-member left))
        (All-right_columns _ left right (
          All-map right (λ c m. from_right (value_at l left c) (value_at-member r right c er m))
            (All-member right)))
    where
      from_left : {o : Option Value} (p : Option Value) → Has o → Has (first_some o p)
      from_left p (v, e) = (v, rw e refl)

      from_right : (o : Option Value) {p : Option Value} → Has p → Has (first_some o p)
      from_right none h = h
      from_right (some v) h = (v, refl)

  is_match-agree :
      (common : Schema)
      → is_match left right common l r ≡ ok true
      → All (λ c. value_at l left c ≡ value_at r right c) common
  unfolding is_match
  is_match-agree [] e = tt
  is_match-agree (c ∷ common) e =
      let (same, rest) =
        agree_step (value_at l left c) (value_at r right c) (is_match left right common l r)
          (rw (extract_value-value_at l left c el, extract_value-value_at r right c er) at e) in
      (same, is_match-agree common rest)

  pub join_row-values :
      All (λ c. value_at l left c ≡ value_at r right c) (common_columns left right)
      → (row : Row) × (join_row left right (result_columns left right) l r ≡ ok row)
        × IsJoined left right l r row
  join_row-values agree =
      let (row, is) =
        join_row-IsRow left right l r el er (result_columns left right) result_columns-Has in
      (
        row,
        is.made,
        record {
          values = λ c.
              extract_value-value_at row (result_columns left right) c is.same_length
              ∙ ap ok (is.values c)
              ∙ elim (Bool-cases (member (result_columns left right) c)) [
                | inl inside ↦ rw inside refl
                | inr outside ↦
                    rw outside
                      (ap ok (sym (joined_value-not_member left right l r el er c outside)))
              ];
          agree = agree;
        },
      )

  -- What a pair adds to the join.
  pub join_pair-IsJoined :
      {rows : List Row} → join_pair left right l r ≡ ok rows → All (IsJoined left right l r) rows
  unfolding join_pair
  join_pair-IsJoined {rows} e =
      let (matched, em, e₁) = >>=-eq-ok (is_match left right (common_columns left right) l r) _ e in
      added matched em e₁
    where
      added :
          (matched : Bool)
          → is_match left right (common_columns left right) l r ≡ ok matched
          → (if matched
              then (do row ← join_row left right (result_columns left right) l r; ok (row ∷ []))
              else ok [])
            ≡ ok rows
          → All (IsJoined left right l r) rows
      added false em e₁ =
          let none_added : [] ≡ rows = ground (arith, e₁) in
          subst (λ rs. All (IsJoined left right l r) rs) none_added tt
      added true em e₁ =
          let (row, made, is) = join_row-values (is_match-agree (common_columns left right) em) in
          let one_added : row ∷ [] ≡ rows = ground (arith, rw made at e₁) in
          subst (λ rs. All (IsJoined left right l r) rs) one_added (is, tt)
