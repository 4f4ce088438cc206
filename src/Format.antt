-- ===== src/Format.antt =====
-- What the program hands to `vsnprintf`, and texts as bytes.
use Prim.Native.Char.{code}
use Prim.Native.String.{String}
use robot_joint_stack.Prelude.{ℕ, Option, List, [], ◌∷◌}
use robot_joint_stack.Prelude.Int.{ℤ}

-- An argument of a format.
pub data Arg : Type 0 where
  unsigned : ℕ → Arg
  signed : ℤ → Arg
  text : String → Arg

-- What `vsnprintf` makes of a format and its arguments: none for an error, else the whole text.
abbrev pub Formatter : Type 0
Formatter = String → List Arg → Option (List ℕ)

-- The bytes of a text, which is ASCII.
abbrev pub codes : String → List ℕ
codes String.[] = []
codes (String.◌∷◌ c s) = code c ∷ codes s
