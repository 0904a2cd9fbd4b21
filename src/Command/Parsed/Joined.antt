-- ===== src/Command/Parsed/Joined.antt =====
-- What a command's strings have to do with the words of the line.
use stunt.Prelude.{
  ℕ, zero, suc, ◌+◌, ◌-◌, ◌≡◌, ◌≤◌, ◌<◌, refl, subst, none, some, List, [], ◌∷◌, ◌++◌, map, arith,
  length, take, drop, length-take, length-drop, take-append-drop, inl, inr, ◌⊎◌,
}
use mathlib.Core.List.{append-nil}
use stunt.Prelude.Int.{ℤ}
use stunt.Text.Case.{Text}
use stunt.Value.{str}
use stunt.Database.Store.{nothing}
use stunt.Command.Words.{skip_blanks, parse_into_words, build_string}
use stunt.Command.Words.Room.{parse_into_words-room}
use stunt.Command.Preposition.{PrepMatch, prep_none, prep, prep_table}
use stunt.Command.Preposition.Found.{Absent, Present, prep-worded, db_find_prep-IsFirstPrep}
use stunt.Command.Parsed.{
  ParsedCommand, line_of, Parts, parts_at, parts_of, dobj_of, iobj_of, command_of, parse_command,
}

take-none {ℓ} : {A : Type ℓ} (n : ℕ) → take {A = A} n [] ≡ []
take-none zero = refl
take-none (suc n) = refl

-- The words from number `a` on, cut at number `b`.
two-parts {ℓ} :
    {A : Type ℓ} (a b : ℕ) (xs : List A) → a ≤ b → take (b - a) (drop a xs) ++ drop b xs ≡ drop a xs
two-parts zero b xs le = let all : b - 0 ≡ b = omega arith in rw all (take-append-drop b xs)
two-parts (suc a) zero xs le = absurd (omega arith)
two-parts (suc a) (suc b) [] le = rw (take-none (suc b - suc a))
two-parts (suc a) (suc b) (x ∷ xs) le =
    let same : suc b - suc a ≡ b - a = omega arith in rw same (two-parts a b xs (omega arith))

three-parts {ℓ} :
    {A : Type ℓ} (a b : ℕ) (xs : List A)
    → a ≤ b
    → take a xs ++ (take (b - a) (drop a xs) ++ drop b xs) ≡ xs
three-parts a b xs le = rw (two-parts a b xs le) (take-append-drop a xs)

-- A preposition takes the first words that are one of its phrases.
pub data IsSplit : Parts → Type 0 where
  without :
      (words : List Text)
      → ((k : ℕ) → k < length words → Absent prep_table (drop k words))
      → IsSplit (record { prep = prep_none; dobj_words = words; prep_words = []; iobj_words = [] })
  around :
      (n : ℕ) (dobj_words prep_words iobj_words : List Text)
      → Present prep_table (prep_words ++ iobj_words) n (length prep_words)
      → ((k : ℕ)
          → k < length dobj_words
          → Absent prep_table (drop k (dobj_words ++ (prep_words ++ iobj_words))))
      → IsSplit (record {
        prep = prep n;
        dobj_words = dobj_words;
        prep_words = prep_words;
        iobj_words = iobj_words;
      })

abbrev pub joined : Parts → List Text
joined parts = parts.dobj_words ++ (parts.prep_words ++ parts.iobj_words)

parts_of-IsSplit :
    (words : List Text) → IsSplit (parts_of words) × (joined (parts_of words) ≡ words)
unfolding parts_of parts_at
parts_of-IsSplit words = elim (db_find_prep-IsFirstPrep words) [
  | inl (e, absent) ↦ rw (e, parts_at) (without words absent, append-nil words)
  | inr (m, e, low, ordered, inside, r) ↦
      let le : m.first ≤ m.last + 1 = omega arith in
      rw (e, parts_at)
        (
          around m.prep (take m.first words) (take (m.last + 1 - m.first) (drop m.first words))
              (drop (m.last + 1) words)
              (rw (two-parts m.first (m.last + 1) words le) (
                subst (Present prep_table (drop m.first words) m.prep)
                  (counted m r.nwords (prep-worded words 0 m r) inside r.last_word)
                  (subst (λ k. Present prep_table (drop k words) m.prep r.nwords)
                    (no_offset m.first) r.present)))
              (λ k lt.
                rw (three-parts m.first (m.last + 1) words le)
                  (r.first_one k (omega (arith, length-take m.first words)))),
          three-parts m.first (m.last + 1) words le,
        )
]
  where
    no_offset : (k : ℕ) → k - 0 ≡ k
    no_offset k = omega arith

    counted :
        (m : PrepMatch) (nwords : ℕ)
        → 1 ≤ nwords
        → m.last < length words
        → m.last ≡ m.first + nwords - 1
        → nwords ≡ length (take (m.last + 1 - m.first) (drop m.first words))
    counted m nwords worded inside last_word =
        omega (
          arith,
          length-take (m.last + 1 - m.first) (drop m.first words),
          length-drop m.first words,
        )

module _ (match_object : Text → ℤ) where
  dobj_cases :
      (ws : List Text)
      → (ws ≡ []) × (dobj_of match_object ws ≡ nothing)
        ⊎ (dobj_of match_object ws ≡ match_object (build_string ws))
  dobj_cases [] = inl (refl, refl)
  dobj_cases (w ∷ ws) = inr refl

  iobj_cases :
      (parts : Parts)
      → IsSplit parts
      → ((n : ℕ) × (parts.prep ≡ prep n)
          × (iobj_of match_object parts.prep parts.iobj_words
              ≡ match_object (build_string parts.iobj_words)))
        ⊎ (parts.prep ≡ prep_none) × (iobj_of match_object parts.prep parts.iobj_words ≡ nothing)
  iobj_cases parts (without words absent) = inr (refl, refl)
  iobj_cases parts (around n dobj_words prep_words iobj_words present absent) = inl (n, refl, refl)

-- How the fields of a command hang together, `words` being those after the verb.
pub record IsParsed (match_object : Text → ℤ) (command : Text) (pc : ParsedCommand) : Type 0 where
  pub parts : Parts
  pub split : IsSplit parts
  pub line_words :
      parse_into_words (line_of (skip_blanks command)).buf ≡ some (pc.verb ∷ joined parts)
  pub args_are : pc.args ≡ map str (joined parts)
  pub prep_is : pc.prep ≡ parts.prep
  pub dobjstr_is : pc.dobjstr ≡ build_string parts.dobj_words
  pub prepstr_is : pc.prepstr ≡ build_string parts.prep_words
  pub iobjstr_is : pc.iobjstr ≡ build_string parts.iobj_words
  pub argstr_is : pc.argstr ≡ (line_of (skip_blanks command)).argstr
  pub dobj_is : (parts.dobj_words ≡ []) × (pc.dobj ≡ nothing) ⊎ (pc.dobj ≡ match_object pc.dobjstr)
  pub iobj_is :
      ((n : ℕ) × (pc.prep ≡ prep n) × (pc.iobj ≡ match_object pc.iobjstr))
      ⊎ (pc.prep ≡ prep_none) × (pc.iobj ≡ nothing)

-- A line without words is no command; any other line is a command, whose verb is the first word and
-- whose arguments are, in this order, the words of the direct object string, those of the preposition
-- string and those of the indirect object string, where the preposition is the first one in the words;
-- its objects are the matches of their strings, or #-1 where there are no words or no preposition.
pub parse_command-IsParsed :
    (match_object : Text → ℤ) (command : Text)
    → (parse_into_words (line_of (skip_blanks command)).buf ≡ some [])
        × (parse_command match_object command ≡ none)
      ⊎ ((pc : ParsedCommand) × (parse_command match_object command ≡ some pc)
          × IsParsed match_object command pc)
unfolding parse_command
parse_command-IsParsed match_object command =
    let (words, e, _) = parse_into_words-room (line_of (skip_blanks command)).buf in go words e
  where
    go :
        (words : List Text)
        → parse_into_words (line_of (skip_blanks command)).buf ≡ some words
        → (parse_into_words (line_of (skip_blanks command)).buf ≡ some [])
            × (parse_command match_object command ≡ none)
          ⊎ ((pc : ParsedCommand) × (parse_command match_object command ≡ some pc)
              × IsParsed match_object command pc)
    go [] e = inl (e, rw (e, parse_command) refl)
    go (verb ∷ words) e =
        let (split, whole) = parts_of-IsSplit words in
        inr (
          command_of match_object verb (line_of (skip_blanks command)).argstr words
              (parts_of words),
          rw (e, parse_command) refl,
          record {
            parts = parts_of words;
            split = split;
            line_words = rw whole e;
            args_are = rw whole refl;
            prep_is = refl;
            dobjstr_is = refl;
            prepstr_is = refl;
            iobjstr_is = refl;
            argstr_is = refl;
            dobj_is = dobj_cases match_object (parts_of words).dobj_words;
            iobj_is = iobj_cases match_object (parts_of words) split;
          },
        )
