-- ===== src/Command/Preposition/Found.antt =====
-- The preposition that is found is the first one in the words.
use stunt.Prelude.{
  some_eq, ℕ, zero, suc, ◌+◌, ◌-◌, ◌≤◌, ◌<◌, ◌≡◌, refl, sym, ap, subst, ◌∙◌, Bool, true, false,
  ◌&&◌, none, some, List, [], ◌∷◌, arith, length, drop, length-drop, &&-true, get_elem?, Bool-cases,
  Option-cases, inl, inr, ◌⊎◌,
}
use stunt.Text.Case.{Text}
use stunt.Command.Words.{parse_into_words, words_loop, scan_word, skip_blanks}
use stunt.Command.Preposition.{
  prep_list, split_aliases, prep_table, alias_at, fits, find_alias, find_at, PrepMatch, find_from,
  db_find_prep,
}

abbrev pub Table : Type 0
Table = List (List (List Text))

-- The alias is one of the phrases of preposition `q`.
pub record IsAlias (table : Table) (q : ℕ) (alias : List Text) : Type 0 where
  pub aliases : List (List Text)
  pub index : ℕ
  pub of_prep : get_elem? table q ≡ some aliases
  pub at_index : get_elem? aliases index ≡ some alias

alias_at-le : (alias argv : List Text) → alias_at alias argv ≡ true → length alias ≤ length argv
unfolding alias_at
alias_at-le [] argv h = omega arith
alias_at-le (w ∷ alias) [] h = cc
alias_at-le (w ∷ alias) (a ∷ argv) h = ground (arith, alias_at-le alias argv)

fits_some : (alias argv : List Text) → fits false alias argv ≡ alias_at alias argv
fits_some alias argv = elim (Bool-cases (alias_at alias argv)) [ inl h ↦ rw h | inr h ↦ rw h ]

find_alias-cases :
    (aliases : List (List Text)) (argv : List Text)
    → ((find_alias false aliases argv ≡ none)
        × ((i : ℕ) (alias : List Text)
            → get_elem? aliases i ≡ some alias
            → alias_at alias argv ≡ false))
      ⊎ ((i : ℕ) × (alias : List Text) × (find_alias false aliases argv ≡ some (length alias))
          × (get_elem? aliases i ≡ some alias)
          × (alias_at alias argv ≡ true))
unfolding find_alias
find_alias-cases [] argv = inl (refl, λ i alias e. cc)
find_alias-cases (alias ∷ more) argv = elim (Bool-cases (alias_at alias argv)) [
  | inl hit ↦ inr (zero, alias, rw (fits_some alias argv, hit), refl, hit)
  | inr miss ↦ elim (find_alias-cases more argv) [
    | inl (e, absent) ↦ inl (rw (fits_some alias argv, miss) e, λ i. misses i miss absent)
    | inr (i, found, e, at_i, h) ↦ inr (suc i, found, rw (fits_some alias argv, miss) e, at_i, h)
  ]
]
  where
    misses :
        (i : ℕ)
        → alias_at alias argv ≡ false
        → ((i' : ℕ) (a : List Text) → get_elem? more i' ≡ some a → alias_at a argv ≡ false)
        → (a : List Text) → get_elem? (alias ∷ more) i ≡ some a
        → alias_at a argv ≡ false
    misses zero miss absent a e = subst (λ t. alias_at t argv ≡ false) (some_eq e) miss
    misses (suc i) miss absent a e = absent i a e

-- No phrase begins the words.
abbrev pub Absent : Table → List Text → Type 0
Absent table argv =
    (q : ℕ) (alias : List Text) → IsAlias table q alias → alias_at alias argv ≡ false

-- The phrase that begins the words.
pub record Present (table : Table) (argv : List Text) (q nwords : ℕ) : Type 0 where
  pub alias : List Text
  pub listed : IsAlias table q alias
  pub stands : alias_at alias argv ≡ true
  pub counted : length alias ≡ nwords

Absent-cons :
    (aliases : List (List Text)) (more : Table) (argv : List Text)
    → ((i : ℕ) (alias : List Text) → get_elem? aliases i ≡ some alias → alias_at alias argv ≡ false)
    → Absent more argv
    → Absent (aliases ∷ more) argv
Absent-cons aliases more argv none_here none_later zero alias l =
    none_here l.index alias
      (subst (λ t. get_elem? t l.index ≡ some alias) (sym (some_eq l.of_prep)) l.at_index)
Absent-cons aliases more argv none_here none_later (suc q) alias l =
    none_later q alias
      (record { aliases = l.aliases; index = l.index; of_prep = l.of_prep; at_index = l.at_index })

find_at-cases :
    (table : Table) (j : ℕ) (argv : List Text)
    → ((find_at false table j argv ≡ none) × Absent table argv)
      ⊎ ((q : ℕ) × (n : ℕ) × (find_at false table j argv ≡ some (j + q, n))
          × Present table argv q n)
unfolding find_at
find_at-cases [] j argv = inl (refl, λ q alias l. cc l.of_prep)
find_at-cases (aliases ∷ more) j argv = elim (find_alias-cases aliases argv) [
  | inr (i, alias, e, at_i, h) ↦
      let same : j + 0 ≡ j = omega arith in
      inr (
        zero,
        length alias,
        rw (e, same, find_at),
        record {
          alias = alias;
          listed = record { aliases = aliases; index = i; of_prep = refl; at_index = at_i };
          stands = h;
          counted = refl;
        },
      )
  | inl (e, absent) ↦ elim (find_at-cases more (suc j) argv) [
    | inl (e', later) ↦ inl (rw (e, e', find_at), Absent-cons aliases more argv absent later)
    | inr (q, n, e', p) ↦
        let same : j + suc q ≡ suc j + q = omega arith in
        inr (
          suc q,
          n,
          rw (e, same, find_at) e',
          record {
            alias = p.alias;
            listed = record {
              aliases = p.listed.aliases;
              index = p.listed.index;
              of_prep = p.listed.of_prep;
              at_index = p.listed.at_index;
            };
            stands = p.stands;
            counted = p.counted;
          },
        )
  ]
]

-- What is sure of a preposition that was found from word `i` on.
pub record IsFirstPrep (table : Table) (argv : List Text) (i : ℕ) (m : PrepMatch) : Type 0 where
  pub nwords : ℕ
  pub from_here : i ≤ m.first
  pub present : Present table (drop (m.first - i) argv) m.prep nwords
  pub last_word : m.last ≡ m.first + nwords - 1
  pub first_one : (k : ℕ) → k < m.first - i → Absent table (drop k argv)

find_from-IsFirstPrep :
    (table : Table) (i : ℕ) (argv : List Text) (m : PrepMatch)
    → find_from false table i argv ≡ some m
    → IsFirstPrep table argv i m
unfolding find_from
find_from-IsFirstPrep table i [] m e = cc
find_from-IsFirstPrep table i (a ∷ argv) m e = elim (find_at-cases table 0 (a ∷ argv)) [
  | inr (q, n, e', p) ↦
      let zero_off : i - i ≡ 0 = omega arith in
      let plain : 0 + q ≡ q = omega arith in
      subst (λ t. IsFirstPrep table (a ∷ argv) i t) (some_eq (rw (e', plain, find_from) at e))
        (record {
          nwords = n;
          from_here = omega arith;
          present = rw zero_off p;
          last_word = refl;
          first_one = λ k lt. absurd (omega arith);
        })
  | inl (e', absent) ↦
      let r = find_from-IsFirstPrep table (suc i) argv m (rw (e', find_from) at e) in
      let one_on : m.first - i ≡ suc (m.first - suc i) = omega (arith, r.from_here) in
      record {
        nwords = r.nwords;
        from_here = omega (arith, r.from_here);
        present = rw one_on r.present;
        last_word = r.last_word;
        first_one = λ k lt. before k absent r.first_one (rw one_on at lt);
      }
]
  where
    before :
        (k : ℕ) {n : ℕ}
        → Absent table (a ∷ argv)
        → ((k' : ℕ) → k' < n → Absent table (drop k' argv))
        → k < suc n
        → Absent table (drop k (a ∷ argv))
    before zero here later lt = here
    before (suc k) here later lt = later k (omega arith)

find_from-none :
    (table : Table) (i : ℕ) (argv : List Text)
    → find_from false table i argv ≡ none
    → (k : ℕ) → k < length argv
    → Absent table (drop k argv)
unfolding find_from
find_from-none table i [] e k lt = absurd (omega arith)
find_from-none table i (a ∷ argv) e zero lt = elim (find_at-cases table 0 (a ∷ argv)) [
  | inl (e', absent) ↦ absent
  | inr (q, n, e', p) ↦ absurd (ground (arith, rw (e', find_from) at e))
]
find_from-none table i (a ∷ argv) e (suc k) lt = elim (find_at-cases table 0 (a ∷ argv)) [
  | inl (e', absent) ↦ find_from-none table (suc i) argv (rw (e', find_from) at e) k (omega arith)
  | inr (q, n, e', p) ↦ absurd (ground (arith, rw (e', find_from) at e))
]

-- Every phrase of the table has a word.
each_worded : List (List Text) → Bool
each_worded [] = true
each_worded ([] ∷ more) = false
each_worded ((w ∷ alias) ∷ more) = each_worded more

all_worded : Table → Bool
all_worded [] = true
all_worded (aliases ∷ table) = each_worded aliases && all_worded table

each_worded-at :
    (aliases : List (List Text)) (i : ℕ) (alias : List Text)
    → each_worded aliases ≡ true
    → get_elem? aliases i ≡ some alias
    → 1 ≤ length alias
unfolding each_worded
each_worded-at [] i alias h e = cc
each_worded-at ([] ∷ more) i alias h e = cc
each_worded-at ((w ∷ a) ∷ more) zero alias h e = omega (arith, ap length (some_eq e))
each_worded-at ((w ∷ a) ∷ more) (suc i) alias h e = each_worded-at more i alias h e

lt_suc : (a b : ℕ) → a < b → suc a < suc b
lt_suc a b h = omega arith

all_worded-at :
    (table : Table) (q : ℕ) (aliases : List (List Text))
    → all_worded table ≡ true
    → get_elem? table q ≡ some aliases
    → (each_worded aliases ≡ true) × (q < length table)
unfolding all_worded
all_worded-at [] q aliases h e = cc
all_worded-at (a ∷ table) zero aliases h e =
    (ap each_worded (sym (some_eq e)) ∙ (&&-true _ _ h).0, omega arith)
all_worded-at (a ∷ table) (suc q) aliases h e =
    let (worded, lt) = all_worded-at table q aliases (&&-true _ _ h).1 e in
    (worded, lt_suc q (length table) lt)

prep_table-worded : (all_worded prep_table ≡ true) × (length prep_table ≡ 15)
unfolding all_worded each_worded prep_table prep_list split_aliases parse_into_words words_loop
    scan_word skip_blanks
prep_table-worded = (refl, refl)

pub prep-worded :
    (argv : List Text) (i : ℕ) (m : PrepMatch) (r : IsFirstPrep prep_table argv i m) → 1 ≤ r.nwords
prep-worded argv i m r =
    let (worded, lt) =
      all_worded-at prep_table m.prep r.present.listed.aliases prep_table-worded.0
        r.present.listed.of_prep in
    let some_word =
      each_worded-at r.present.listed.aliases r.present.listed.index r.present.alias worded
        r.present.listed.at_index in
    omega (arith, r.present.counted)

-- Either db_find_prep finds no preposition, and then no phrase of any begins at any word; or the one
-- that it finds is one of the 15, the words from the first to the last that it reports lie among the
-- words given and are a phrase of it, case aside, and no phrase begins at an earlier word.
pub db_find_prep-IsFirstPrep :
    (argv : List Text)
    → ((db_find_prep false argv ≡ none)
        × ((k : ℕ) → k < length argv → Absent prep_table (drop k argv)))
      ⊎ ((m : PrepMatch) × (db_find_prep false argv ≡ some m)
          × (m.prep < 15)
          × (m.first ≤ m.last)
          × (m.last < length argv)
          × IsFirstPrep prep_table argv 0 m)
unfolding db_find_prep
db_find_prep-IsFirstPrep argv = elim (Option-cases (find_from false prep_table 0 argv)) [
  | inl e ↦ inl (e, find_from-none prep_table 0 argv e)
  | inr (m, e) ↦
      let r = find_from-IsFirstPrep prep_table 0 argv m e in
      let (low, ordered, inside) = bounds m r in inr (m, e, low, ordered, inside, r)
]
  where
    bounds :
        (m : PrepMatch)
        → IsFirstPrep prep_table argv 0 m
        → (m.prep < 15) × (m.first ≤ m.last) × (m.last < length argv)
    bounds m r =
        let (worded, lt) =
          all_worded-at prep_table m.prep r.present.listed.aliases prep_table-worded.0
            r.present.listed.of_prep in
        let some_word =
          each_worded-at r.present.listed.aliases r.present.listed.index r.present.alias worded
            r.present.listed.at_index in
        let le = alias_at-le r.present.alias (drop (m.first - 0) argv) r.present.stands in
        (
          omega (arith, prep_table-worded.1),
          omega (arith, r.last_word, r.present.counted),
          omega (arith, r.last_word, r.present.counted, length-drop (m.first - 0) argv),
        )
