-- ===== src/Command/Preposition.antt =====
-- db_verbs.cc: the prepositions, and the search for one in the words of a command.
pub mod Found
pub mod Names
use stunt.Prelude.{
  ℕ, zero, suc, ◌+◌, ◌-◌, ◌*◌, Bool, true, false, ◌&&◌, ◌||◌, not, Option, none, some, List, [],
  ◌∷◌, ◌++◌, map, length, ltb, leb, ◌==◌, if◌then◌else◌, get_or, ◌%◌, ◌^◌,
}
use mathlib.Core.Option
use stunt.Prelude.Int.{ℤ, pos, negsuc, pos_part, ltb_ℤ, eqb_ℤ}
use stunt.Text.Case.{Text, mystrcasecmp}
use stunt.Text.Codes.{codes}
use stunt.Text.Strtol.{starts_with_digit, strtol_int}
use stunt.Command.Words.{parse_into_words}

unfoldable pub prep_list : List Text
prep_list =
    codes "with/using"
    ∷ codes "at/to"
    ∷ codes "in front of"
    ∷ codes "in/inside/into"
    ∷ codes "on top of/on/onto/upon"
    ∷ codes "out of/from inside/from"
    ∷ codes "over"
    ∷ codes "through"
    ∷ codes "under/underneath/beneath"
    ∷ codes "behind"
    ∷ codes "beside"
    ∷ codes "for/about"
    ∷ codes "is"
    ∷ codes "as"
    ∷ codes "off/off of"
    ∷ []

-- The parts of an entry between the slashes, each cut into words.
abbrev pub onto : ℕ → List Text → List Text
onto c [] = (c ∷ []) ∷ []
onto c (p ∷ ps) = (c ∷ p) ∷ ps

unfoldable pub split_aliases : Text → List Text
split_aliases [] = [] ∷ []
split_aliases (c ∷ s) = let rest = split_aliases s in if c == b'/' then [] ∷ rest else onto c rest

abbrev pub or_empty : Option (List Text) → List Text
or_empty none = []
or_empty (some ws) = ws

-- The table: for each preposition its aliases, for each alias its words.
unfoldable pub prep_table : List (List (List Text))
prep_table = map (λ p. map (λ a. or_empty (parse_into_words a)) (split_aliases p)) prep_list

-- The words of an alias at the beginning of the words that are left.
unfoldable pub alias_at : List Text → List Text → Bool
alias_at [] argv = true
alias_at (w ∷ alias) [] = false
alias_at (w ∷ alias) (a ∷ argv) = eqb_ℤ (mystrcasecmp a w) (pos 0) && alias_at alias argv

-- The test of one alias; an exact match takes in all the words.
abbrev pub fits : Bool → List Text → List Text → Bool
fits exact_match alias argv =
    alias_at alias argv && (not exact_match || (length alias == length argv))

-- The loop over the aliases of one preposition: the number of words of the first that fits.
unfoldable pub find_alias : Bool → List (List Text) → List Text → Option ℕ
find_alias exact_match [] argv = none
find_alias exact_match (alias ∷ more) argv =
    let later = find_alias exact_match more argv in
    if fits exact_match alias argv then some (length alias) else later

-- The loop over the prepositions, from number `j` on.
unfoldable pub find_at : Bool → List (List (List Text)) → ℕ → List Text → Option (ℕ × ℕ)
find_at exact_match [] j argv = none
find_at exact_match (aliases ∷ more) j argv = elim (find_alias exact_match aliases argv) [
  | some nwords ↦ some (j, nwords)
  | none ↦ find_at exact_match more (suc j) argv
]

pub record PrepMatch : Type 0 where
  pub prep : ℕ
  pub first : ℕ
  pub last : ℕ

-- The loop over the words, from number `i` on; `none` is PREP_NONE.
unfoldable pub find_from : Bool → List (List (List Text)) → ℕ → List Text → Option PrepMatch
find_from exact_match table i [] = none
find_from exact_match table i (a ∷ argv) = elim (find_at exact_match table 0 (a ∷ argv)) [
  | some (j, nwords) ↦ some (record { prep = j; first = i; last = i + nwords - 1 })
  | none ↦ if exact_match then none else find_from exact_match table (suc i) argv
]

unfoldable pub db_find_prep : Bool → List Text → Option PrepMatch
db_find_prep exact_match argv = find_from exact_match prep_table 0 argv

-- `db_prep_spec`
pub data PrepSpec : Type 0 where
  prep_any prep_none : PrepSpec
  prep : ℕ → PrepSpec

abbrev pub cut : Text → Text
cut [] = []
cut (c ∷ s) = let rest = cut s in if c == b'/' then [] else c ∷ rest

abbrev pub hash_off : Text → Text
hash_off [] = []
hash_off (c ∷ s) = if c == b'#' then s else c ∷ s

abbrev pub spec_of : Option PrepMatch → PrepSpec
spec_of none = prep_none
spec_of (some m) = prep m.prep

-- A negative number is a large one, as an unsigned one, and so no preposition.
unfoldable pub db_match_prep : Text → PrepSpec
db_match_prep prepname =
    let s = hash_off prepname in
    let (r, rest) = strtol_int s in
    if length rest == 0
    then (if not (starts_with_digit s) || ltb_ℤ r (pos 0) || leb (length prep_list) (pos_part r)
        then prep_none
        else prep (pos_part r))
    else spec_of (db_find_prep true (or_empty (parse_into_words (cut s))))

unfoldable pub db_unparse_prep : PrepSpec → Text
db_unparse_prep prep_none = codes "none"
db_unparse_prep prep_any = codes "any"
db_unparse_prep (prep n) = get_or prep_list n []
