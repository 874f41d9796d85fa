-- ===== src/Common/Decimal.antt =====
-- `std::to_string` of an unsigned number and `std::stoul`, on the bytes of a text.
use relvec_db.Common.Tests.{ltb, leb, ◌==◌, if◌then◌else◌, Bool-cases, lt→ltb}
use relvec_db.Common.Lists.{All, All-append}
use relvec_db.Common.Outcome.{Outcome, ok, fail, invalid_argument, out_of_range}
use Prim.Native.Nat.{ℕ, zero, suc, ◌+◌, ◌-◌, ◌*◌, ◌/◌, ◌%◌, ◌^◌, ◌<◌}
use mathlib.Core.Path.{◌≡◌, refl, ap, sym, ◌∙◌}
use mathlib.Core.Logic.{◌≢◌, inl, inr}
use mathlib.Core.Bool.{Bool, false, true, false, ◌&&◌, ◌||◌}
use mathlib.Core.List.{List, [], ◌∷◌, ◌++◌, append_assoc, append-nil}
use native.Mathlib.Nat.{pow-suc}
use native.Mathlib.Omega.{arith}

-- The digits of `n`, of which there are at most as many as the first argument.
unfoldable pub digits : ℕ → ℕ → List ℕ
digits zero n = []
digits (suc f) n =
    let front = digits f (n / 10) in if ltb n 10 then (48 + n) ∷ [] else front ++ (48 + n % 10) ∷ []

-- `std::to_string` of a number below 10 ^ 20, as every `uint64_t` is.
abbrev pub to_string : ℕ → List ℕ
to_string n = digits 20 n

abbrev pub is_digit : ℕ → Bool
is_digit c = leb 48 c && leb c 57

-- `std::isspace`
abbrev pub is_space : ℕ → Bool
is_space c = c == 32 || (leb 9 c && leb c 13)

unfoldable pub skip_spaces : List ℕ → List ℕ
skip_spaces [] = []
skip_spaces (c ∷ s) = if is_space c then skip_spaces s else c ∷ s

-- The number that the leading digits stand for, behind digits that stand for `v`.
unfoldable pub read_digits : ℕ → List ℕ → ℕ
read_digits v [] = v
read_digits v (c ∷ s) =
    let rest = read_digits (v * 10 + (c - 48)) s in if is_digit c then rest else v

-- The digits behind an optional sign, as a `uint64_t`.
unfoldable pub read_unsigned : (ℕ → ℕ) → List ℕ → Outcome ℕ
read_unsigned sign [] = fail invalid_argument
read_unsigned sign (c ∷ s) =
    if is_digit c
    then (let n = read_digits 0 (c ∷ s) in
        if ltb n (2 ^ 64) then ok (sign n) else fail out_of_range)
    else fail invalid_argument

unfoldable pub read_signed : List ℕ → Outcome ℕ
unfolding read_unsigned
read_signed [] = fail invalid_argument
read_signed (c ∷ s) =
    if c == b'-'
    then read_unsigned (λ n. (2 ^ 64 - n) % 2 ^ 64) s
    else if c == b'+'
    then read_unsigned (λ n. n) s
    else read_unsigned (λ n. n) (c ∷ s)

-- `std::stoul`, base 10.
unfoldable pub stoul : List ℕ → Outcome ℕ
unfolding skip_spaces read_signed
stoul s = read_signed (skip_spaces s)

-- A text all of whose bytes are digits.
abbrev pub IsNumeral : List ℕ → Type 0
IsNumeral s = All (λ c. is_digit c ≡ true) s

digit-is_digit : (n : ℕ) → n < 10 → is_digit (48 + n) ≡ true
digit-is_digit n h = ground arith

pub digits-IsNumeral : (f n : ℕ) → IsNumeral (digits f n)
unfolding digits
digits-IsNumeral zero n = tt
digits-IsNumeral (suc f) n = elim (Bool-cases (ltb n 10)) [
  | inl small ↦ rw small (ground arith, tt)
  | inr large ↦
      rw large (All-append _ (digits f (n / 10)) _ (digits-IsNumeral f (n / 10)) (ground arith, tt))
]

append-ne-nil {ℓ} : {A : Type ℓ} (s : List A) {t : List A} → t ≢ [] → s ++ t ≢ []
append-ne-nil [] h = h
append-ne-nil (x ∷ s) h = cc

digits-ne-nil : (f n : ℕ) → digits (suc f) n ≢ []
unfolding digits
digits-ne-nil f n = elim (Bool-cases (ltb n 10)) [
  | inl small ↦ rw small (cc)
  | inr large ↦ rw large (append-ne-nil (digits f (n / 10)) (cc))
]

read_digits-digits :
    (f n : ℕ) (rest : List ℕ) → n < 10 ^ f → read_digits 0 (digits f n ++ rest) ≡ read_digits n rest
unfolding digits read_digits
read_digits-digits zero n rest h = ap (λ v. read_digits v rest) (omega arith)
read_digits-digits (suc f) n rest h = elim (Bool-cases (ltb n 10)) [
  | inl small ↦
      rw (small, digit-is_digit n (ground arith)) (ap (λ v. read_digits v rest) (ground arith))
  | inr large ↦ rw large (
      ap (read_digits 0) (append_assoc (digits f (n / 10)) _ rest)
      ∙ read_digits-digits f (n / 10) _ (omega (arith, pow-suc 10 f, h))
      ∙ rw (digit-is_digit (n % 10) (ground arith)) (ap (λ v. read_digits v rest) (omega arith)))
]

not_digit :
    (c : ℕ)
    → is_digit c ≡ true
    → (is_space c ≡ false) × ((c == b'-') ≡ false) × ((c == b'+') ≡ false)
not_digit c h = (ground arith, ground arith, ground arith)

stoul-numeral :
    (s : List ℕ) → s ≢ [] → IsNumeral s → read_digits 0 s < 2 ^ 64 → stoul s ≡ ok (read_digits 0 s)
unfolding stoul read_signed read_unsigned skip_spaces
stoul-numeral [] ne h l = absurd (ne refl)
stoul-numeral (c ∷ s) ne h l =
    let other = not_digit c h.0 in
    rw (other.0, other.1, other.2, h.0, lt→ltb (read_digits 0 (c ∷ s)) (2 ^ 64) l) refl

-- `std::stoul` reads what `std::to_string` printed, for a number of 64 bits.
pub stoul-to_string : (n : ℕ) → n < 2 ^ 64 → stoul (to_string n) ≡ ok n
stoul-to_string n h =
    let value : read_digits 0 (to_string n) ≡ n =
      ap (read_digits 0) (sym (append-nil (to_string n)))
      ∙ read_digits-digits 20 n [] (omega arith)
      ∙ unfold read_digits in refl in
    stoul-numeral (to_string n) (digits-ne-nil 19 n) (digits-IsNumeral 20 n) (rw value h)
    ∙ ap ok value
