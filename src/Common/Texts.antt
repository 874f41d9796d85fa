-- ===== src/Common/Texts.antt =====
-- The bytes of a text that stands in the source between quotes.
use Prim.Native.Nat.{ℕ}
use Prim.Native.String.{String}
use Prim.Native.Char.{code}
use mathlib.Core.List.{List, [], ◌∷◌}

abbrev pub bytes : String → List ℕ
bytes String.[] = []
bytes (String.◌∷◌ c s) = code c ∷ bytes s
