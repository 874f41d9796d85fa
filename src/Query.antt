-- ===== src/Query.antt =====
-- lib/sql/ast.h and lib/sql/interpreter.cpp: expressions, and how they are evaluated.
-- An evaluation of the source returns a row of one value; here it is that value.
pub mod Typing
pub mod Join
pub mod Select
mod Tests
use relvec_db.Common.{
  ℕ, suc, ◌^◌, Bool, true, false, not, ◌||◌, Option, none, some, List, [], ◌∷◌, ltb, leb,
  if◌then◌else◌,
}
use relvec_db.Common.Int.{ℤ, pos, negsuc, ltb_ℤ, eqb_ℤ, ◌+ℤ◌, ◌-ℤ◌, ◌*ℤ◌, ◌/ℤ◌}
use relvec_db.Common.Outcome.{Outcome, ok, fail, assertion, bad_variant, arithmetic, ◌>>=◌}
use relvec_db.Row.{Value, boolean, int64, string, bytes_eq}

-- `BinaryOperatorCode` and `UnaryOperatorCode`
pub data BinaryOperatorCode : Type 0 where
  plus minus mul div eq ne lt le gt ge land lor : BinaryOperatorCode

pub data UnaryOperatorCode : Type 0 where
  lnot uminus : UnaryOperatorCode

-- The expressions of `ASTType`. A name in a query is a literal of type string.
mutual
  pub data Expr : Type 0 where
    identifier : List ℕ → Expr
    number : ℤ → Expr
    text : List ℕ → Expr
    binary_operator : BinaryOperatorCode → Expr → Expr → Expr
    unary_operator : UnaryOperatorCode → Expr → Expr
    function : List ℕ → Exprs → Expr
    order : Expr → Bool → Expr

  pub data Exprs : Type 0 where
    nil : Exprs
    cons : Expr → Exprs → Exprs

-- `variables`: the assignments, the newest first.
abbrev pub Variables : Type 0
Variables = List (List ℕ × Value)

unfoldable pub find_variable : List ℕ → Variables → Option Value
unfolding bytes_eq
find_variable name [] = none
find_variable name ((key, value) ∷ variables) =
    if bytes_eq key name then some value else find_variable name variables

-- `std::get<int64_t>`
abbrev pub int64_of : Value → Outcome ℤ
int64_of (int64 z) = ok z
int64_of v = fail bad_variant

abbrev pub is_int64 : ℤ → Bool
is_int64 (pos n) = ltb n (2 ^ 63)
is_int64 (negsuc n) = ltb n (2 ^ 63)

-- A result of `int64_t` arithmetic.
unfoldable pub checked : ℤ → Outcome Value
checked z = if is_int64 z then ok (int64 z) else fail arithmetic

abbrev pub divided : ℤ → ℤ → Outcome Value
divided l r = if eqb_ℤ r (pos 0) then fail arithmetic else checked (l /ℤ r)

-- The inner `switch` of `executeSomeAST`. The codes that it lacks end in `assert(0)`.
unfoldable pub apply_operator : BinaryOperatorCode → ℤ → ℤ → Outcome Value
unfolding checked ◌+ℤ◌ ◌-ℤ◌ ◌*ℤ◌ ◌/ℤ◌
apply_operator plus l r = checked (l +ℤ r)
apply_operator minus l r = checked (l -ℤ r)
apply_operator mul l r = checked (l *ℤ r)
apply_operator div l r = divided l r
apply_operator eq l r = ok (boolean (eqb_ℤ l r))
apply_operator ge l r = ok (boolean (not (ltb_ℤ l r)))
apply_operator gt l r = ok (boolean (ltb_ℤ r l))
apply_operator lt l r = ok (boolean (ltb_ℤ l r))
apply_operator le l r = ok (boolean (not (ltb_ℤ r l)))
apply_operator ne l r = fail assertion
apply_operator land l r = fail assertion
apply_operator lor l r = fail assertion

abbrev pub has_case : BinaryOperatorCode → Bool
has_case ne = false
has_case land = false
has_case lor = false
has_case _ = true

-- Both operands are taken as integers; for the codes without a case nothing is taken.
unfoldable pub operate : BinaryOperatorCode → Value → Value → Outcome Value
unfolding apply_operator
operate code l r =
    let result = (do x ← int64_of l; y ← int64_of r; apply_operator code x y) in
    if has_case code then result else fail assertion

-- A literal of type string: a variable of that name, unless names are asked for.
abbrev pub text_or_variable : Bool → List ℕ → Option Value → Value
text_or_variable load_var s none = string s
text_or_variable true s (some v) = string s
text_or_variable false s (some v) = v

-- `executeSomeAST`
unfoldable pub execute_some_ast : Variables → Bool → Expr → Outcome Value
unfolding find_variable operate
execute_some_ast variables load_var (number z) = ok (int64 z)
execute_some_ast variables load_var (text s) =
    ok (text_or_variable load_var s (find_variable s variables))
execute_some_ast variables load_var (binary_operator code l r) = do
  left_val ← execute_some_ast variables load_var l
  right_val ← execute_some_ast variables load_var r
  operate code left_val right_val
execute_some_ast variables load_var (identifier name) = fail assertion
execute_some_ast variables load_var (unary_operator code e) = fail assertion
execute_some_ast variables load_var (function name arguments) = fail assertion
execute_some_ast variables load_var (order e desc) = fail assertion
