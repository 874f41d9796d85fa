-- ===== src/Query/Typing.antt =====
-- lib/sql/interpreter.cpp, `executeSomeAST`: expressions that evaluate without a type error.
use mathlib.Core.Path.{subst}
use relvec_db.Common.{
  ℕ, not, ap, Bool, false, ◌≡◌, refl, ◌⊎◌, inl, inr, Option, none, some, List, Bool-cases,
}
use relvec_db.Common.Int.{ℤ, pos, eqb_ℤ, ltb_ℤ, ◌+ℤ◌, ◌-ℤ◌, ◌*ℤ◌, ◌/ℤ◌}
use relvec_db.Common.Outcome.{Outcome, ok, fail, arithmetic}
use relvec_db.Row.{Value, boolean, int64, string}
use relvec_db.Query.{
  BinaryOperatorCode, plus, minus, mul, div, eq, lt, le, gt, ge, Expr, number, text,
  binary_operator, Variables, find_variable, checked, operate, execute_some_ast, is_int64, divided,
  text_or_variable,
}

-- The types of values that an expression can have.
pub data ValueType : Type 0 where
  integer truth chars : ValueType

-- What a context says of a name: the type of the variable, or that there is none.
abbrev pub Context : Type 0
Context = List ℕ → Option ValueType

pub data IsOf : ValueType → Value → Type 0 where
  an_integer : (z : ℤ) → IsOf integer (int64 z)
  a_truth : (b : Bool) → IsOf truth (boolean b)
  some_chars : (s : List ℕ) → IsOf chars (string s)

abbrev pub type_or_chars : Option ValueType → ValueType
type_or_chars none = chars
type_or_chars (some t) = t

-- The operators with a case, by the type of their result.
abbrev pub result_type : BinaryOperatorCode → Option ValueType
result_type plus = some integer
result_type minus = some integer
result_type mul = some integer
result_type div = some integer
result_type eq = some truth
result_type lt = some truth
result_type le = some truth
result_type gt = some truth
result_type ge = some truth
result_type _ = none

pub data HasType (names : Context) : Expr → ValueType → Type 0 where
  a_number : (z : ℤ) → HasType names (number z) integer
  a_name : (s : List ℕ) {t : ValueType} → type_or_chars (names s) ≡ t → HasType names (text s) t
  an_operation :
      (code : BinaryOperatorCode) {l r : Expr} {t : ValueType}
      → result_type code ≡ some t
      → HasType names l integer
      → HasType names r integer
      → HasType names (binary_operator code l r) t

-- Each variable has the type that the context gives it, and there are no others.
abbrev pub IsVariable : Option ValueType → Option Value → Type 0
IsVariable none none = Unit
IsVariable none (some v) = ⊥
IsVariable (some t) none = ⊥
IsVariable (some t) (some v) = IsOf t v

-- A value of the type, or an overflow or a division by zero.
abbrev pub Evaluates : ValueType → Outcome Value → Type 0
Evaluates t outcome = ((v : Value) × (outcome ≡ ok v) × IsOf t v) ⊎ (outcome ≡ fail arithmetic)

checked-Evaluates : (z : ℤ) → Evaluates integer (checked z)
unfolding checked
checked-Evaluates z = elim (Bool-cases (is_int64 z)) [
  | inl fits ↦ inl (int64 z, rw fits refl, an_integer z)
  | inr large ↦ inr (rw large refl)
]

at_type :
    {t u : ValueType} (outcome : Outcome Value)
    → some t ≡ some u
    → Evaluates t outcome
    → Evaluates u outcome
at_type outcome e h = subst (λ t. Evaluates t outcome) (ap type_or_chars e) h

divided-Evaluates : (x y : ℤ) → Evaluates integer (divided x y)
divided-Evaluates x y = elim (Bool-cases (eqb_ℤ y (pos 0))) [
  | inl by_zero ↦ inr (rw by_zero refl)
  | inr other ↦ rw other (checked-Evaluates (x /ℤ y))
]

a_truth-Evaluates : (b : Bool) → Evaluates truth (ok (boolean b))
a_truth-Evaluates b = inl (boolean b, refl, a_truth b)

apply_operator-Evaluates :
    (code : BinaryOperatorCode) (x y : ℤ) {t : ValueType}
    → result_type code ≡ some t
    → Evaluates t (operate code (int64 x) (int64 y))
unfolding operate
apply_operator-Evaluates plus x y e = at_type _ e (checked-Evaluates (x +ℤ y))
apply_operator-Evaluates minus x y e = at_type _ e (checked-Evaluates (x -ℤ y))
apply_operator-Evaluates mul x y e = at_type _ e (checked-Evaluates (x *ℤ y))
apply_operator-Evaluates div x y e = at_type _ e (divided-Evaluates x y)
apply_operator-Evaluates eq x y e = at_type _ e (a_truth-Evaluates (eqb_ℤ x y))
apply_operator-Evaluates lt x y e = at_type _ e (a_truth-Evaluates (ltb_ℤ x y))
apply_operator-Evaluates le x y e = at_type _ e (a_truth-Evaluates (not (ltb_ℤ y x)))
apply_operator-Evaluates gt x y e = at_type _ e (a_truth-Evaluates (ltb_ℤ y x))
apply_operator-Evaluates ge x y e = at_type _ e (a_truth-Evaluates (not (ltb_ℤ x y)))
apply_operator-Evaluates _ x y e = cc

operate-Evaluates :
    (code : BinaryOperatorCode) {l r : Value} {t : ValueType}
    → result_type code ≡ some t
    → IsOf integer l
    → IsOf integer r
    → Evaluates t (operate code l r)
operate-Evaluates code e (an_integer x) (an_integer y) = apply_operator-Evaluates code x y e

name-IsOf :
    (s : List ℕ) (t : Option ValueType) (v : Option Value)
    → IsVariable t v
    → IsOf (type_or_chars t) (text_or_variable false s v)
name-IsOf s none none h = some_chars s
name-IsOf s none (some v) h = absurd h
name-IsOf s (some t) none h = absurd h
name-IsOf s (some t) (some v) h = h

module _ (names : Context) (variables : Variables)
    (agree : (s : List ℕ) → IsVariable (names s) (find_variable s variables)) where
  -- Where the variables have the types that a context gives them, and there are no others, an
  -- expression of a type evaluates to a value of that type, or ends with an overflow or a division
  -- by zero. Numbers are integers, a name that is no variable is a text, the four operations take
  -- and return integers, and the comparisons but != take integers.
  pub execute_some_ast-Evaluates :
      {e : Expr} {t : ValueType}
      → HasType names e t
      → Evaluates t (execute_some_ast variables false e)
  unfolding execute_some_ast
  execute_some_ast-Evaluates (a_number z) = inl (int64 z, refl, an_integer z)
  execute_some_ast-Evaluates (a_name s {t} e) = inl (
    text_or_variable false s (find_variable s variables),
    refl,
    subst (λ u. IsOf u (text_or_variable false s (find_variable s variables))) e
        (name-IsOf s (names s) (find_variable s variables) (agree s)),
  )
  execute_some_ast-Evaluates (an_operation code {l} {r} {t} e hl hr) =
      elim (execute_some_ast-Evaluates hl) [
        | inr failed ↦ inr (rw failed refl)
        | inl (x, ex, ix) ↦ elim (execute_some_ast-Evaluates hr) [
          | inr failed ↦ inr (rw (ex, failed) refl)
          | inl (y, ey, iy) ↦ rw (ex, ey) (operate-Evaluates code e ix iy)
        ]
      ]
