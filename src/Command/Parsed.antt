-- ===== src/Command/Parsed.antt =====
-- parse_cmd.cc: `parse_into_wordlist` and `parse_command`.
pub mod Joined
use stunt.Prelude.{
  ℕ, zero, suc, ◌+◌, ◌-◌, Bool, true, false, ◌&&◌, not, Option, none, some, List, [], ◌∷◌, ◌++◌,
  map, length, take, drop, ◌==◌, if◌then◌else◌,
}
use stunt.Prelude.Int.{ℤ}
use stunt.Text.Case.{Text}
use stunt.Text.Codes.{codes}
use stunt.Database.Store.{nothing}
use stunt.Value.{Var, str}
use stunt.Command.Words.{skip_blanks, parse_into_words, build_string}
use stunt.Command.Preposition.{PrepMatch, PrepSpec, prep_none, prep, db_find_prep, or_empty}

unfoldable pub parse_into_wordlist : Text → List Var
parse_into_wordlist command = map str (or_empty (parse_into_words command))

-- `Parsed_Command`
pub record ParsedCommand : Type 0 where
  pub verb : Text
  pub argstr : Text
  pub args : List Var
  pub dobjstr : Text
  pub dobj : ℤ
  pub prepstr : Text
  pub prep : PrepSpec
  pub iobjstr : Text
  pub iobj : ℤ

-- The loop that skips the verb, which can be in quotes.
unfoldable pub skip_verb : Bool → Text → Text
skip_verb in_quotes [] = []
skip_verb in_quotes (c ∷ []) = if not in_quotes && (c == b' ') then c ∷ [] else []
skip_verb in_quotes (c ∷ d ∷ s) =
    let toggled = skip_verb (not in_quotes) (d ∷ s) in
    let escaped = skip_verb in_quotes s in
    let plain = skip_verb in_quotes (d ∷ s) in
    if not in_quotes && (c == b' ')
    then c ∷ d ∷ s
    else if c == b'"'
    then toggled
    else if c == b'\\'
    then escaped
    else plain

-- `buf` and `argstr`.
pub record Line : Type 0 where
  pub buf : Text
  pub argstr : Text

abbrev pub special : Text → Text → Line
special verb argstr = record { buf = verb ++ (b' ' ∷ argstr); argstr = argstr }

-- The `switch` on the first character.
unfoldable pub line_of : Text → Line
line_of [] = record { buf = []; argstr = [] }
line_of (c ∷ s) =
    if c == b'"'
    then special (codes "say") s
    else if c == b':'
    then special (codes "emote") s
    else if c == b';'
    then special (codes "eval") s
    else record { buf = c ∷ s; argstr = skip_blanks (skip_verb false (c ∷ s)) }

-- The words about the preposition: the direct object's, its own, and the indirect object's.
pub record Parts : Type 0 where
  pub prep : PrepSpec
  pub dobj_words : List Text
  pub prep_words : List Text
  pub iobj_words : List Text

unfoldable pub parts_at : List Text → Option PrepMatch → Parts
parts_at words none = record {
  prep = prep_none;
  dobj_words = words;
  prep_words = [];
  iobj_words = [];
}
parts_at words (some m) = record {
  prep = prep m.prep;
  dobj_words = take m.first words;
  prep_words = take (m.last + 1 - m.first) (drop m.first words);
  iobj_words = drop (m.last + 1) words;
}

unfoldable pub parts_of : List Text → Parts
parts_of words = parts_at words (db_find_prep false words)

-- `match_object` of the user is an argument.
module _ (match_object : Text → ℤ) where
  abbrev pub dobj_of : List Text → ℤ
  dobj_of [] = nothing
  dobj_of (w ∷ ws) = match_object (build_string (w ∷ ws))

  abbrev pub iobj_of : PrepSpec → List Text → ℤ
  iobj_of (prep n) ws = match_object (build_string ws)
  iobj_of other ws = nothing

  abbrev pub command_of : Text → Text → List Text → Parts → ParsedCommand
  command_of verb argstr words parts = record {
    verb = verb;
    argstr = argstr;
    args = map str words;
    dobjstr = build_string parts.dobj_words;
    dobj = dobj_of parts.dobj_words;
    prepstr = build_string parts.prep_words;
    prep = parts.prep;
    iobjstr = build_string parts.iobj_words;
    iobj = iobj_of parts.prep parts.iobj_words;
  }

  abbrev pub command_words : Text → List Text → Option ParsedCommand
  command_words argstr [] = none
  command_words argstr (verb ∷ words) = some (command_of verb argstr words (parts_of words))

  -- `none` is the NULL of a line without words.
  unfoldable pub parse_command : Text → Option ParsedCommand
  parse_command command =
      let line = line_of (skip_blanks command) in
      command_words line.argstr (or_empty (parse_into_words line.buf))
