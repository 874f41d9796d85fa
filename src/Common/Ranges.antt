-- ===== src/Common/Ranges.antt =====
-- A part of an array, as the list of its entries.
use Prim.Native.Nat.{ℕ, zero, suc, ◌+◌, ◌<◌}
use mathlib.Core.Path.{◌≡◌, refl, ap, ap₂, ◌∙◌}
use mathlib.Core.List.{List, [], ◌∷◌, ◌++◌}
use native.Mathlib.Nat.{zero-add, add-zero}
use native.Mathlib.Omega.{arith}
use relvec_db.Common.Lists.{length}

module _ {ℓ} {A : Type ℓ} where
  -- `n` slots from slot `i` on.
  unfoldable pub range : (ℕ → A) → ℕ → ℕ → List A
  range f i zero = []
  range f i (suc n) = f i ∷ range f (suc i) n

  pub length-range : (f : ℕ → A) (i n : ℕ) → length (range f i n) ≡ n
  unfolding range
  length-range f i zero = refl
  length-range f i (suc n) = ap suc (length-range f (suc i) n)

  pub range_split : (f : ℕ → A) (i a b : ℕ) → range f i (a + b) ≡ range f i a ++ range f (i + a) b
  unfolding range
  range_split f i zero b = simp (zero-add, add-zero)
  range_split f i (suc a) b =
      let e : suc a + b ≡ suc (a + b) = omega arith in
      let k : suc i + a ≡ i + suc a = omega arith in
      rw e (
        ap (λ t. f i ∷ t)
          (range_split f (suc i) a b ∙ ap (λ t. range f (suc i) a ++ range f t b) k))

  -- Two arrays that agree on a range hold the same list there, also when one is moved.
  pub range_ext :
      (f g : ℕ → A) (i k n : ℕ)
      → ((j : ℕ) → j < n → f (i + j) ≡ g (k + j))
      → range f i n ≡ range g k n
  unfolding range
  range_ext f g i k zero h = refl
  range_ext f g i k (suc n) h = ap₂ ◌∷◌ (simp (add-zero) at (h 0 (omega arith))) (
      range_ext f g (suc i) (suc k) n (λ j l.
        let e : suc i + j ≡ i + suc j = omega arith in
        let e' : suc k + j ≡ k + suc j = omega arith in rw (e, e') (h (suc j) (omega arith))))
