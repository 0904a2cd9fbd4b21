-- ===== src/Text/Codes.antt =====
-- The bytes of a literal of the source.
use Prim.Native.Char.{code}
use Prim.Native.String.{String}
use stunt.Prelude.{[], ◌∷◌}
use stunt.Text.Case.{Text}

abbrev pub codes : String → Text
codes String.[] = []
codes (String.◌∷◌ c s) = code c ∷ codes s
