-- ===== src/Prelude/Text.antt =====
-- Text as byte strings.
use Prim.Native.Char.{code}
use Prim.Native.String.{String}
use Prim.Native.Nat.{ℕ}
use mathlib.Core.Bool.{Bool, true, ◌&&◌}
use mathlib.Core.List.{List, [], ◌∷◌}
use neo_python.Prelude.Tests.{ltb}

-- The code points of a text: what encode() gives of a text that is ASCII.
abbrev pub encode : String → List ℕ
encode String.[] = []
encode (String.◌∷◌ c s) = code c ∷ encode s

-- Whether bytes decode as ASCII.
abbrev pub is_ascii : List ℕ → Bool
is_ascii [] = true
is_ascii (b ∷ bs) = ltb b 128 && is_ascii bs
