-- ===== src/Comparator/Scalar.antt =====
-- lib/sql/comparator.cpp: the orders of the compared types, `<` and `>` of C++.
use relvec_db.Common.{ℕ, ◌≡◌, refl, List, [], ◌∷◌, arith}
use relvec_db.Comparator.{
  Sign, less, equal, flip, compare_ℕ, compare_ℤ, compare_bool, compare_string,
}

-- What a three-way comparison of values owes its callers.
pub record IsOrder {ℓ} {A : Type ℓ} (cmp : A → A → Sign) : Type ℓ where
  pub equal_self : (a : A) → cmp a a ≡ equal
  pub eq_of_equal : (a b : A) → cmp a b ≡ equal → a ≡ b
  pub flipped : (a b : A) → cmp b a ≡ flip (cmp a b)
  pub less_trans : (a b c : A) → cmp a b ≡ less → cmp b c ≡ less → cmp a c ≡ less

pub compare_ℕ-IsOrder : IsOrder compare_ℕ
unfolding compare_ℕ
compare_ℕ-IsOrder = record {
  equal_self = λ a. ground arith;
  eq_of_equal = λ a b h. ground arith;
  flipped = λ a b. ground arith;
  less_trans = λ a b c h k. ground arith;
}

pub compare_ℤ-IsOrder : IsOrder compare_ℤ
unfolding compare_ℤ
compare_ℤ-IsOrder = record {
  equal_self = λ a. ground arith;
  eq_of_equal = λ a b h. ground arith;
  flipped = λ a b. ground arith;
  less_trans = λ a b c h k. ground arith;
}

pub compare_bool-IsOrder : IsOrder compare_bool
unfolding compare_bool
compare_bool-IsOrder = record {
  equal_self = λ a. ground arith;
  eq_of_equal = λ a b h. ground arith;
  flipped = λ a b. ground arith;
  less_trans = λ a b c h k. ground arith;
}

compare_string_self : (s : List ℕ) → compare_string s s ≡ equal
unfolding compare_string
compare_string_self [] = refl
compare_string_self (x ∷ s) = ground (arith, compare_ℕ-IsOrder.equal_self x, compare_string_self s)

eq_of_compare_string : (s t : List ℕ) → compare_string s t ≡ equal → s ≡ t
unfolding compare_string
eq_of_compare_string [] [] h = refl
eq_of_compare_string [] (y ∷ t) h = cc
eq_of_compare_string (x ∷ s) [] h = cc
eq_of_compare_string (x ∷ s) (y ∷ t) h =
    ground (arith, compare_ℕ-IsOrder.eq_of_equal x y, eq_of_compare_string s t)

compare_string-flip : (s t : List ℕ) → compare_string t s ≡ flip (compare_string s t)
unfolding compare_string
compare_string-flip [] [] = refl
compare_string-flip [] (y ∷ t) = refl
compare_string-flip (x ∷ s) [] = refl
compare_string-flip (x ∷ s) (y ∷ t) =
    ground (arith, compare_ℕ-IsOrder.flipped x y, compare_string-flip s t)

compare_string_trans :
    (s t u : List ℕ)
    → compare_string s t ≡ less
    → compare_string t u ≡ less
    → compare_string s u ≡ less
unfolding compare_string compare_ℕ
compare_string_trans [] [] u h k = cc
compare_string_trans [] (y ∷ t) [] h k = cc
compare_string_trans [] (y ∷ t) (z ∷ u) h k = refl
compare_string_trans (x ∷ s) [] u h k = cc
compare_string_trans (x ∷ s) (y ∷ t) [] h k = cc
compare_string_trans (x ∷ s) (y ∷ t) (z ∷ u) h k = ground (arith, compare_string_trans s t u)

pub compare_string-IsOrder : IsOrder compare_string
compare_string-IsOrder = record {
  equal_self = compare_string_self;
  eq_of_equal = eq_of_compare_string;
  flipped = compare_string-flip;
  less_trans = compare_string_trans;
}
