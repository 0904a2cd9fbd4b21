-- ===== src/Command/Objects/Matched.antt =====
-- What an object that is matched by name has to do with the name.
use stunt.Prelude.{
  ℕ, zero, suc, ◌≡◌, refl, subst, Bool, true, ◌||◌, Option, none, some, List, [], ◌∷◌, arith,
  length, get_elem?, ◌==◌, if◌then◌else◌, Bool-cases, Option-cases, some_eq, inl, inr, ◌⊎◌,
}
use stunt.Prelude.Int.{ℤ, pos, eqb_ℤ}
use stunt.Text.Case.{Text, mystrncasecmp}
use stunt.Database.Store.{Db, nothing}
use stunt.Database.Location.{db_object_location}
use stunt.Command.Objects.{
  ambiguous, failed_match, MatchData, Aliases, match_name, match_aliases, own_name, match_proc,
  match_all, contents_of, match_contents,
}

abbrev unmatched : MatchData
unmatched = record { exact = nothing; partial = failed_match }

-- The name is the beginning of a candidate, case aside.
abbrev pub begins : Text → Text → Bool
begins name candidate = eqb_ℤ (mystrncasecmp candidate name (length name)) (pos 0)

-- What is sure of the data, where `P` is sure of each object that was matched.
record IsSound (P : ℤ → Type 0) (d : MatchData) : Type 0 where
  exact_one : (d.exact ≡ nothing) ⊎ P d.exact
  partial_one : (d.partial ≡ failed_match) ⊎ ((d.partial ≡ ambiguous) ⊎ P d.partial)

module _ (P : ℤ → Type 0) (name : Text) (oid : ℤ) where
  match_name-IsSound :
      (candidate : Text) (d d' : MatchData)
      → (begins name candidate ≡ true → P oid)
      → IsSound P d
      → match_name name oid candidate d ≡ some d'
      → IsSound P d'
  unfolding match_name
  match_name-IsSound candidate d d' p s e = elim (Bool-cases (begins name candidate)) [
    | inr other ↦ subst (IsSound P) (some_eq (rw other at e)) s
    | inl hit ↦ elim (Bool-cases (length candidate == length name)) [
      | inl whole ↦ elim (Bool-cases (eqb_ℤ d.exact nothing || eqb_ℤ d.exact oid)) [
        | inl first ↦
            subst (IsSound P) (some_eq (rw (hit, whole, first) at e))
              (record { exact_one = inr (p hit); partial_one = s.partial_one })
        | inr second ↦ absurd (ground (arith, rw (hit, whole, second) at e))
      ]
      | inr part ↦ elim (Bool-cases (eqb_ℤ d.partial failed_match || eqb_ℤ d.partial oid)) [
        | inl first ↦
            subst (IsSound P) (some_eq (rw (hit, part, first) at e))
              (record { exact_one = s.exact_one; partial_one = inr (inr (p hit)) })
        | inr second ↦
            subst (IsSound P) (some_eq (rw (hit, part, second) at e))
              (record { exact_one = s.exact_one; partial_one = inr (inl refl) })
      ]
    ]
  ]

  match_aliases-IsSound :
      (names : List (Option Text)) (d d' : MatchData)
      → ((i : ℕ) (candidate : Text)
          → get_elem? names i ≡ some (some candidate)
          → begins name candidate ≡ true
          → P oid)
      → IsSound P d
      → match_aliases name oid names d ≡ some d'
      → IsSound P d'
  unfolding match_aliases
  match_aliases-IsSound [] d d' p s e = subst (IsSound P) (some_eq e) s
  match_aliases-IsSound (none ∷ names) d d' p s e =
      match_aliases-IsSound names d d' (λ i. p (suc i)) s e
  match_aliases-IsSound (some candidate ∷ names) d d' p s e =
      elim (Option-cases (match_name name oid candidate d)) [
        | inl stop ↦ absurd (ground (arith, rw (stop, match_aliases) at e))
        | inr (d1, h) ↦
            match_aliases-IsSound names d1 d' (λ i. p (suc i))
              (match_name-IsSound candidate d d1 (p zero candidate refl) s h)
              (rw (h, match_aliases) at e)
      ]

-- An object among those held has a name that the text begins.
pub record IsNamed (aliases : Aliases) (db : Db) (held : List ℤ) (name : Text) (oid : ℤ)
    : Type 0 where
  pub place : ℕ
  pub is_held : get_elem? held place ≡ some oid
  pub index : ℕ
  pub candidate : Text
  pub is_name :
      get_elem? (some (own_name name aliases db oid) ∷ aliases oid) index ≡ some (some candidate)
  pub is_begun : begins name candidate ≡ true

-- What the player holds, and what is where the player is.
pub data IsAtHand (aliases : Aliases) (db : Db) (player : ℤ) (name : Text) (oid : ℤ) : Type 0 where
  carried :
      IsNamed aliases db (contents_of name aliases db player) name oid
      → IsAtHand aliases db player name oid
  nearby :
      (loc : ℤ)
      → db_object_location db player ≡ some loc
      → IsNamed aliases db (contents_of name aliases db loc) name oid
      → IsAtHand aliases db player name oid

module _ (P : ℤ → Type 0) (name : Text) (aliases : Aliases) (db : Db) where
  match_all-IsSound :
      (contents : List ℤ) (d d' : MatchData)
      → ((oid : ℤ) → IsNamed aliases db contents name oid → P oid)
      → IsSound P d
      → match_all name aliases db contents d ≡ some d'
      → IsSound P d'
  unfolding match_all match_proc
  match_all-IsSound [] d d' p s e = subst (IsSound P) (some_eq e) s
  match_all-IsSound (oid ∷ contents) d d' p s e =
      elim (Option-cases (match_proc name aliases db oid d)) [
        | inl stop ↦ absurd (ground (arith, rw (stop, match_all) at e))
        | inr (d1, h) ↦
            match_all-IsSound contents d1 d'
              (λ other held. p other (record {
                place = suc held.place;
                is_held = held.is_held;
                index = held.index;
                candidate = held.candidate;
                is_name = held.is_name;
                is_begun = held.is_begun;
              }))
              (match_aliases-IsSound P name oid (some (own_name name aliases db oid) ∷ aliases oid)
                d d1
                (λ index candidate is_name is_begun. p oid (record {
                  place = zero;
                  is_held = refl;
                  index = index;
                  candidate = candidate;
                  is_name = is_name;
                  is_begun = is_begun;
                }))
                s h)
              (rw (h, match_all) at e)
      ]

settled :
    (P : ℤ → Type 0) (d : MatchData)
    → IsSound P d
    → ((if eqb_ℤ d.exact nothing then d.partial else d.exact) ≡ failed_match)
      ⊎ (((if eqb_ℤ d.exact nothing then d.partial else d.exact) ≡ ambiguous)
          ⊎ P (if eqb_ℤ d.exact nothing then d.partial else d.exact))
settled P d s = elim (Bool-cases (eqb_ℤ d.exact nothing)) [
  | inl no_exact ↦ rw no_exact s.partial_one
  | inr an_exact ↦ elim s.exact_one [
    | inl e ↦ absurd (ground (arith, rw e at an_exact))
    | inr p ↦ inr (inr (rw an_exact p))
  ]
]

-- A name matches nothing, it is ambiguous, or it matches an object that the player holds or that
-- is where the player is, whose own name or one of whose aliases begins with the name.
pub match_contents-IsAtHand :
    (name : Text) (aliases : Aliases) (db : Db) (player : ℤ)
    → (match_contents name aliases db player ≡ failed_match)
      ⊎ ((match_contents name aliases db player ≡ ambiguous)
          ⊎ IsAtHand aliases db player name (match_contents name aliases db player))
unfolding match_contents
match_contents-IsAtHand name aliases db player =
    elim (Option-cases (db_object_location db player)) [
      | inl nowhere ↦ inl (rw (nowhere, match_contents) refl)
      | inr (loc, h) ↦
          elim (Option-cases
            (match_all name aliases db (contents_of name aliases db player) unmatched)) [
              | inl twice ↦ inr (inl (rw (h, twice, match_contents) refl))
              | inr (d, carries) ↦
                  elim (Option-cases
                    (match_all name aliases db (contents_of name aliases db loc) d)) [
                      | inl twice ↦ inr (inl (rw (h, carries, twice, match_contents) refl))
                      | inr (d', near) ↦
                          rw (h, carries, near, match_contents)
                            (settled (IsAtHand aliases db player name) d' (
                              match_all-IsSound (IsAtHand aliases db player name) name aliases db
                                (contents_of name aliases db loc) d d' (λ oid. nearby loc h)
                                (match_all-IsSound (IsAtHand aliases db player name) name aliases db
                                  (contents_of name aliases db player) unmatched d (λ oid. carried)
                                  (record { exact_one = inl refl; partial_one = inl refl }) carries)
                                near))
                    ]
            ]
    ]
