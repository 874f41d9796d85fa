-- ===== src/Common/Outcome.antt =====
-- What a call of the source comes to: a value, or one of the ways in which it does not return one.
use mathlib.Core.Path.{◌≡◌, refl}
use mathlib.Core.Bool.{Bool, false, true}

-- `assertion` is a failed `assert`, `bad_variant` the `std::bad_variant_access` of `std::get`,
-- `out_of_range` an index past the end of a vector or a page (undefined behaviour in the source),
-- `invalid_argument` and `runtime_error` the exceptions of those names, `thrown_text` a text that is
-- thrown, `null_pointer` a use of one, `arithmetic` a signed overflow or a division by zero (both
-- undefined in the source), and `no_fuel` no outcome of the source: the bound on a loop was too
-- small.
pub data Fault : Type 0 where
  assertion bad_variant out_of_range invalid_argument runtime_error : Fault
  thrown_text null_pointer arithmetic no_fuel : Fault

pub data Outcome {ℓ} (R : Type ℓ) : Type ℓ where
  fail : Fault → Outcome R
  ok : R → Outcome R

-- The check of an `assert` or of a bound: go on, or end with the fault.
abbrev pub guard : Bool → Fault → Outcome (Unit {0})
guard false fault = fail fault
guard true fault = ok tt

module _ {ℓ κ} {R : Type ℓ} {T : Type κ} where
  infixl 5 ◌>>=◌
  -- The next statement runs on the value of the one before, unless that one ended with a fault.
  abbrev pub ◌>>=◌ : Outcome R → (R → Outcome T) → Outcome T
  fail fault >>= next = fail fault
  ok value >>= next = next value

  -- A sequence that came to a value came by one of its first statement.
  pub >>=-eq-ok :
      (first : Outcome R) (next : R → Outcome T) {t : T}
      → (first >>= next) ≡ ok t
      → (r : R) × (first ≡ ok r) × (next r ≡ ok t)
  >>=-eq-ok (fail fault) next e = cc
  >>=-eq-ok (ok value) next e = (value, refl, e)

infixl 5 ◌>>◌
abbrev pub ◌>>◌ {κ} : {T : Type κ} → Outcome (Unit {0}) → Outcome T → Outcome T
check >> rest = check >>= λ done. rest
