-- ===== src/Command/Examples.antt =====
-- A player who types a line in a room with a lamp and a box.
use stunt.Prelude.{
  ℕ, ◌≡◌, ◌+◌, ◌≤◌, ◌<◌, refl, false, some, none, List, [], ◌∷◌, map, arith, length, drop, ◌⊎◌,
}
use stunt.Prelude.Int.{ℤ, pos}
use stunt.Text.Case.{Text, mystrcasecmp, mystrncasecmp}
use stunt.Text.Codes.{codes}
use stunt.Database.Store.{Object, Db, new_object, find}
use stunt.Database.Location.{db_object_location}
use stunt.Command.Words.{skip_blanks, scan_word, words_loop, parse_into_words, build_string}
use stunt.Command.Words.Room.{room, parse_into_words-room}
use stunt.Command.Words.Spelled.{quoted, parse_into_words-build_string}
use stunt.Command.Preposition.{
  PrepMatch, prep, prep_table, prep_list, split_aliases, alias_at, find_alias, find_at, find_from,
  db_find_prep, db_match_prep, db_unparse_prep,
}
use stunt.Command.Preposition.Found.{Absent, IsFirstPrep, db_find_prep-IsFirstPrep}
use stunt.Command.Preposition.Names.{db_match_prep-db_unparse_prep}
use stunt.Command.Objects.{
  ambiguous, failed_match, Aliases, match_name, match_aliases, match_proc, match_all,
  match_contents,
}
use stunt.Command.Objects.Matched.{IsAtHand, match_contents-IsAtHand}
use stunt.Command.Parsed.{ParsedCommand, line_of, parse_command}
use stunt.Command.Parsed.Joined.{IsParsed, parse_command-IsParsed}

abbrev line : Text
line = codes "put \"my lamp\" in front of box"

abbrev words : List Text
words = codes "put" ∷ codes "my lamp" ∷ codes "in" ∷ codes "front" ∷ codes "of" ∷ codes "box" ∷ []

read_line : parse_into_words line ≡ some words
unfolding parse_into_words words_loop scan_word skip_blanks
read_line = refl

parse_into_words-room_example :
    (ws : List Text) × (parse_into_words line ≡ some ws) × (room ws ≤ length line + 1)
parse_into_words-room_example = parse_into_words-room line

parse_into_words-build_string_example :
    parse_into_words (build_string (map quoted words)) ≡ some words
parse_into_words-build_string_example = parse_into_words-build_string words

db_match_prep-db_unparse_prep_example : db_match_prep (db_unparse_prep (prep 4)) ≡ prep 4
db_match_prep-db_unparse_prep_example = db_match_prep-db_unparse_prep 4 (omega arith)

db_find_prep-IsFirstPrep_example :
    ((db_find_prep false words ≡ none)
      × ((k : ℕ) → k < length words → Absent prep_table (drop k words)))
    ⊎ ((m : PrepMatch) × (db_find_prep false words ≡ some m)
        × (m.prep < 15)
        × (m.first ≤ m.last)
        × (m.last < length words)
        × IsFirstPrep prep_table words 0 m)
db_find_prep-IsFirstPrep_example = db_find_prep-IsFirstPrep words

found_prep : db_find_prep false words ≡ some (record { prep = 2; first = 2; last = 4 })
unfolding db_find_prep find_from find_at find_alias alias_at prep_table prep_list split_aliases
    parse_into_words words_loop scan_word skip_blanks mystrcasecmp
found_prep = refl

abbrev named : ℤ → Text → Object
named oid name = record (new_object oid) { name = name; location = pos 0 }

abbrev scene : Db
scene = record {
  objects =
      some (record (new_object (pos 0)) { contents = pos 1 ∷ pos 2 ∷ pos 3 ∷ [] })
      ∷ some (named (pos 1) (codes "Ann"))
      ∷ some (named (pos 2) (codes "lamp"))
      ∷ some (named (pos 3) (codes "box"))
      ∷ [];
  num_objects = 4;
  nonce = 0;
  all_users = [];
  array_size = 4096;
}

abbrev lamps : Aliases
lamps oid = some (codes "light") ∷ none ∷ []

match_contents-IsAtHand_example :
    (match_contents (codes "LAM") lamps scene (pos 1) ≡ failed_match)
    ⊎ ((match_contents (codes "LAM") lamps scene (pos 1) ≡ ambiguous)
        ⊎ IsAtHand lamps scene
            (pos 1)
            (codes "LAM")
            (match_contents (codes "LAM") lamps scene (pos 1)))
match_contents-IsAtHand_example = match_contents-IsAtHand (codes "LAM") lamps scene (pos 1)

found_lamp : match_contents (codes "LAM") lamps scene (pos 1) ≡ pos 2
unfolding match_contents match_all match_proc match_aliases match_name mystrncasecmp
    db_object_location find
found_lamp = refl

-- `light` is a name of everything.
found_none : match_contents (codes "lig") lamps scene (pos 1) ≡ ambiguous
unfolding match_contents match_all match_proc match_aliases match_name mystrncasecmp
    db_object_location find
found_none = refl

abbrev measured : Text → ℤ
measured name = pos (length name)

parse_command-IsParsed_example :
    (parse_into_words (line_of (skip_blanks line)).buf ≡ some [])
      × (parse_command measured line ≡ none)
    ⊎ ((pc : ParsedCommand) × (parse_command measured line ≡ some pc) × IsParsed measured line pc)
parse_command-IsParsed_example = parse_command-IsParsed measured line
