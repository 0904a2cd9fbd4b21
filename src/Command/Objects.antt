-- ===== src/Command/Objects.antt =====
-- match.cc: the object that a player's words name.
pub mod Matched
use stunt.Prelude.{
  ℕ, zero, suc, ◌+◌, ◌*◌, ◌-◌, Bool, true, false, ◌&&◌, ◌||◌, not, Option, none, some, List, [],
  ◌∷◌, length, ◌==◌, if◌then◌else◌,
}
use mathlib.Core.Option
use stunt.Prelude.Int.{ℤ, pos, negsuc, neg_ℤ, eqb_ℤ}
use stunt.Int32.{wrap32}
use stunt.Text.Case.{Text, mystrcasecmp, mystrncasecmp}
use stunt.Text.Codes.{codes}
use stunt.Text.Strtol.{strtol_int}
use stunt.Database.Store.{Object, Db, nothing, find, valid}
use stunt.Database.Location.{db_object_location}

abbrev pub ambiguous : ℤ
ambiguous = negsuc 1

abbrev pub failed_match : ℤ
failed_match = negsuc 2

-- `struct match_data`, without the name and its length.
pub record MatchData : Type 0 where
  pub exact : ℤ
  pub partial : ℤ

-- The property `aliases` of an object, where it is a list: `none` is an element that is no string.
abbrev pub Aliases : Type 0
Aliases = ℤ → List (Option Text)

module _ (name : Text) where
  -- One name of the object `oid`; `none` ends the enumeration.
  unfoldable pub match_name : ℤ → Text → MatchData → Option MatchData
  match_name oid candidate d =
      if not (eqb_ℤ (mystrncasecmp candidate name (length name)) (pos 0))
      then some d
      else if length candidate == length name
      then (if eqb_ℤ d.exact nothing || eqb_ℤ d.exact oid
          then some (record d { exact = oid })
          else none)
      else if eqb_ℤ d.partial failed_match || eqb_ℤ d.partial oid
      then some (record d { partial = oid })
      else some (record d { partial = ambiguous })

  -- The loop over the aliases.
  unfoldable pub match_aliases : ℤ → List (Option Text) → MatchData → Option MatchData
  match_aliases oid [] d = some d
  match_aliases oid (none ∷ names) d = match_aliases oid names d
  match_aliases oid (some candidate ∷ names) d = elim (match_name oid candidate d) [
    | none ↦ none
    | some d' ↦ match_aliases oid names d'
  ]

  module _ (aliases : Aliases) (db : Db) where
    -- The object's own name comes first; an object that is not there is the dereference of NULL,
    -- which cannot be, since the contents of an object are valid.
    abbrev pub own_name : ℤ → Text
    own_name oid = elim (find db oid) [ none ↦ [] | some o ↦ o.name ]

    unfoldable pub match_proc : ℤ → MatchData → Option MatchData
    match_proc oid d = match_aliases oid (some (own_name oid) ∷ aliases oid) d

    -- `db_for_all_contents` with `match_proc`.
    unfoldable pub match_all : List ℤ → MatchData → Option MatchData
    match_all [] d = some d
    match_all (oid ∷ contents) d = elim (match_proc oid d) [
      | none ↦ none
      | some d' ↦ match_all contents d'
    ]

    abbrev pub contents_of : ℤ → List ℤ
    contents_of oid = elim (find db oid) [ none ↦ [] | some o ↦ o.contents ]

    -- An object that is not valid is passed over, as one that holds nothing.
    unfoldable pub match_contents : ℤ → ℤ
    match_contents player = elim (db_object_location db player) [
      | none ↦ failed_match
      | some loc ↦
          elim (match_all (contents_of player)
            (record { exact = nothing; partial = failed_match })) [
              | none ↦ ambiguous
              | some d ↦ elim (match_all (contents_of loc) d) [
                | none ↦ ambiguous
                | some d' ↦ if eqb_ℤ d'.exact nothing then d'.partial else d'.exact
              ]
            ]
    ]

module _ (aliases : Aliases) (db : Db) (player : ℤ) where
  -- `none` is the dereference of a NULL pointer, which the test of the player rules out.
  unfoldable pub match_object : Text → Option ℤ
  match_object [] = some nothing
  match_object (c ∷ s) =
      let (r, rest) = strtol_int s in
      if c == b'#'
      then some (if not (length rest == 0) || not (valid db r) then failed_match else r)
      else if not (valid db player)
      then some failed_match
      else if eqb_ℤ (mystrcasecmp (c ∷ s) (codes "me")) (pos 0)
      then some player
      else if eqb_ℤ (mystrcasecmp (c ∷ s) (codes "here")) (pos 0)
      then db_object_location db player
      else some (match_contents (c ∷ s) aliases db player)
