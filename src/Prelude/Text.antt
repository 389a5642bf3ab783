-- ===== src/Prelude/Text.antt =====
-- The characters of a text literal, as C strings hold them: its bytes, if it is ASCII.
use Prim.Native.Nat.{ℕ}
use Prim.Native.Char.{code}
use Prim.Native.String.{String}
use mathlib.Core.List.{List, [], ◌∷◌}

abbrev pub ascii : String → List ℕ
ascii String.[] = []
ascii (String.◌∷◌ c rest) = code c ∷ ascii rest
