-- ===== src/Command/Preposition/Names.antt =====
-- The name of a preposition stands for it.
use stunt.Prelude.{ℕ, ◌<◌, ◌≡◌, refl, true, arith, every_below, every_below-at, ◌==◌, ==_iff}
use stunt.Int32.{wrap32, bits, signed32}
use stunt.Text.Strtol.{strtol_int, strtol, digits, skip_space}
use stunt.Text.Case.{mystrcasecmp}
use stunt.Command.Words.{skip_blanks, scan_word, words_loop, parse_into_words}
use stunt.Command.Preposition.{
  PrepSpec, prep, prep_none, prep_any, prep_list, prep_table, split_aliases, alias_at, find_alias,
  find_at, find_from, db_find_prep, db_match_prep, db_unparse_prep,
}

abbrev number : PrepSpec → ℕ
number (prep n) = n
number prep_none = 99
number prep_any = 98

table : every_below 15 (λ n. number (db_match_prep (db_unparse_prep (prep n))) == n) ≡ true
unfolding db_match_prep db_unparse_prep prep_list prep_table split_aliases alias_at find_alias
    find_at find_from db_find_prep strtol_int strtol digits skip_space wrap32 bits signed32
    mystrcasecmp parse_into_words words_loop scan_word skip_blanks every_below
table = refl

prep_of_number : (s : PrepSpec) (n : ℕ) → n < 15 → number s ≡ n → s ≡ prep n
prep_of_number (prep m) n h e = rw e
prep_of_number prep_none n h e = absurd (omega arith)
prep_of_number prep_any n h e = absurd (omega arith)

-- For each of the 15 prepositions, db_match_prep gives back the preposition whose name
-- db_unparse_prep returns, also where the name lists several phrases.
pub db_match_prep-db_unparse_prep :
    (n : ℕ) → n < 15 → db_match_prep (db_unparse_prep (prep n)) ≡ prep n
db_match_prep-db_unparse_prep n h =
    prep_of_number _ n h ((==_iff _ n).0 (every_below-at 15 n _ h table))
