-- ===== src/Text/Search/Builtins.antt =====
-- list.cc: the built-in functions around the searches; utils.cc: `strtr`. The bound on the size of
-- the stream that collects a result is not part of the model.
use stunt.Prelude.{
  ℕ, ◌+◌, ◌-◌, Bool, false, ◌&&◌, ◌||◌, not, Option, none, some, [], ◌∷◌, length, drop, ltb, leb,
  ◌==◌, if◌then◌else◌,
}
use mathlib.Core.Option
use stunt.Prelude.Int.{ℤ, pos, pos_part, neg_part, ltb_ℤ}
use stunt.Text.Case.{Text}
use stunt.Text.Search.{strindex, strrindex, stream_add_strsub}
use stunt.Value.{e_invarg, Var, Floats, is_true}
use stunt.Lists.Builtins.{Reply, make_var_pack, make_error_pack}

-- The translation table: `ascii` at first. The characters of strings are below 128.
abbrev pub ascii : ℕ → ℕ
ascii c = c

abbrev pub assign : (ℕ → ℕ) → ℕ → ℕ → ℕ → ℕ
assign temp c t x = if x == c then t else temp x

abbrev pub isalpha : ℕ → Bool
isalpha c = (leb b'A' c && leb c b'Z') || (leb b'a' c && leb c b'z')

abbrev pub toupper : ℕ → ℕ
toupper c = if leb b'a' c && leb c b'z' then c - 32 else c

abbrev pub tolower : ℕ → ℕ
tolower c = if leb b'A' c && leb c b'Z' then c + 32 else c

-- The entries for one character, `none` where `to` has ended.
unfoldable pub translate : Bool → (ℕ → ℕ) → ℕ → Option ℕ → ℕ → ℕ
translate case_counts temp c none =
    if not case_counts && isalpha c
    then assign (assign temp (toupper c) 0) (tolower c) 0
    else assign temp c 0
translate case_counts temp c (some t) =
    if not case_counts && isalpha c
    then assign (assign temp (toupper c) (toupper t)) (tolower c) (tolower t)
    else assign temp c t

-- The first loop.
unfoldable pub table : Bool → (ℕ → ℕ) → Text → Text → ℕ → ℕ
table case_counts temp [] to = temp
table case_counts temp (c ∷ from) [] = table case_counts (translate case_counts temp c none) from []
table case_counts temp (c ∷ from) (t ∷ to) =
    table case_counts (translate case_counts temp c (some t)) from to

-- The second loop: a character that goes to 0 is left out.
unfoldable pub translated : (ℕ → ℕ) → Text → Text
translated temp [] = []
translated temp (c ∷ source) =
    let rest = translated temp source in if ltb 0 (temp c) then temp c ∷ rest else rest

unfoldable pub strtr : Text → Text → Text → Bool → Text
strtr source from to case_counts = translated (table case_counts ascii from to) source

-- An optional argument that is a truth value.
abbrev pub given : Floats → Option Var → Bool
given f none = false
given f (some v) = is_true f v

unfoldable pub bf_strtr : Floats → Text → Text → Text → Option Var → Reply Text
bf_strtr f subject from to case_matters =
    make_var_pack (strtr subject from to (given f case_matters))

unfoldable pub bf_strsub : ℕ → Floats → Text → Text → Text → Option Var → Option (Reply Text)
bf_strsub fuel f source [] with_ case_matters = some (make_error_pack e_invarg)
bf_strsub fuel f source (w ∷ what) with_ case_matters =
    Option.map (λ s. make_var_pack s)
      (stream_add_strsub fuel source (w ∷ what) with_ (given f case_matters))

-- Past the end of the source the length that is left is negative, and the loop is not entered.
unfoldable pub bf_index : Floats → Text → Text → Option Var → ℤ → Reply ℕ
bf_index f source what case_matters offset =
    if ltb_ℤ offset (pos 0)
    then make_error_pack e_invarg
    else if ltb (length source) (pos_part offset)
    then make_var_pack 0
    else make_var_pack (strindex (drop (pos_part offset) source) what (given f case_matters))

unfoldable pub bf_rindex : Floats → Text → Text → Option Var → ℤ → Reply ℕ
bf_rindex f source what case_matters offset =
    if ltb_ℤ (pos 0) offset
    then make_error_pack e_invarg
    else if ltb (length source) (neg_part offset)
    then make_var_pack 0
    else make_var_pack
        (strrindex source (length source - neg_part offset) what (given f case_matters))
