-- ===== src/Command/Words.antt =====
-- parse_cmd.cc: `parse_into_words` and `build_string`.
pub mod Room
pub mod Spelled
use stunt.Prelude.{
  ℕ, zero, suc, ◌+◌, Bool, true, false, ◌&&◌, ◌||◌, not, Option, none, some, List, [], ◌∷◌, ◌++◌,
  length, ◌==◌, if◌then◌else◌,
}
use mathlib.Core.Option
use stunt.Text.Case.{Text}

-- `while (*input == ' ') input++;`
unfoldable pub skip_blanks : Text → Text
skip_blanks [] = []
skip_blanks (c ∷ s) = let rest = skip_blanks s in if c == b' ' then rest else c ∷ s

-- The inner loop: the word that it writes and the input that it leaves.
pub record Scanned : Type 0 where
  pub word : Text
  pub rest : Text

abbrev pub push : ℕ → Scanned → Scanned
push c s = record s { word = c ∷ s.word }

unfoldable pub scan_word : Bool → Text → Scanned
scan_word in_quotes [] = record { word = []; rest = [] }
scan_word in_quotes (c ∷ []) =
    if not in_quotes && (c == b' ')
    then record { word = []; rest = c ∷ [] }
    else if (c == b'"') || (c == b'\\')
    then record { word = []; rest = [] }
    else record { word = c ∷ []; rest = [] }
scan_word in_quotes (c ∷ d ∷ s) =
    let toggled = scan_word (not in_quotes) (d ∷ s) in
    let escaped = push d (scan_word in_quotes s) in
    let plain = push c (scan_word in_quotes (d ∷ s)) in
    if not in_quotes && (c == b' ')
    then record { word = []; rest = c ∷ d ∷ s }
    else if c == b'"'
    then toggled
    else if c == b'\\'
    then escaped
    else plain

-- The `for` loop, on fuel; `none` means that the fuel ran out.
unfoldable pub words_loop : ℕ → Text → Option (List Text)
words_loop zero input = none
words_loop (suc fuel) [] = some []
words_loop (suc fuel) (c ∷ input) =
    let scanned = scan_word false (c ∷ input) in
    Option.map (λ ws. scanned.word ∷ ws) (words_loop fuel (skip_blanks scanned.rest))

unfoldable pub parse_into_words : Text → Option (List Text)
parse_into_words input = words_loop (length input + 1) (skip_blanks input)

unfoldable pub build_string : List Text → Text
build_string [] = []
build_string (w ∷ []) = w
build_string (w ∷ v ∷ ws) = w ++ (b' ' ∷ build_string (v ∷ ws))
