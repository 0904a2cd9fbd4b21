-- ===== src/Command/Words/Spelled.antt =====
-- Every list of words can be typed: in quotes, with a backslash before what is special there.
use stunt.Prelude.{
  ℕ, zero, suc, ◌+◌, ◌≤◌, ◌<◌, ◌≡◌, refl, ap, ◌∙◌, Bool, true, false, ◌||◌, some, List, [], ◌∷◌,
  ◌++◌, map, arith, length, ◌==◌, if◌then◌else◌, Bool-cases, inl, inr,
}
use stunt.Text.Case.{Text}
use stunt.Command.Words.{skip_blanks, push, scan_word, words_loop, parse_into_words, build_string}

abbrev is_special : ℕ → Bool
is_special c = (c == b'"') || (c == b'\\')

-- A word between the quotes, and what follows it.
unfoldable pub escaped : Text → Text → Text
escaped [] rest = b'"' ∷ rest
escaped (c ∷ w) rest =
    let more = escaped w rest in if is_special c then b'\\' ∷ c ∷ more else c ∷ more

abbrev pub quoted : Text → Text
quoted w = b'"' ∷ escaped w []

-- What can follow a word: the end of the line, or a blank.
abbrev Follows : Text → Type 0
Follows [] = Unit {0}
Follows (c ∷ s) = (c == b' ') ≡ true

scan_word-Follows : (s : Text) → Follows s → scan_word false s ≡ record { word = []; rest = s }
unfolding scan_word
scan_word-Follows [] h = refl
scan_word-Follows (c ∷ []) h = rw h
scan_word-Follows (c ∷ d ∷ s) h = rw h

-- Inside the quotes, character by character.
scan_word-plain :
    (c d : ℕ) (s : Text)
    → is_special c ≡ false
    → scan_word true (c ∷ d ∷ s) ≡ push c (scan_word true (d ∷ s))
unfolding scan_word
scan_word-plain c d s h =
    let quote : (c == b'"') ≡ false = ground arith in
    let slash : (c == b'\\') ≡ false = ground arith in rw (quote, slash)

scan_word-slash : (c : ℕ) (s : Text) → scan_word true (b'\\' ∷ c ∷ s) ≡ push c (scan_word true s)
unfolding scan_word
scan_word-slash c s = refl

scan_word-quote :
    (s : Text) → Follows s → scan_word true (b'"' ∷ s) ≡ record { word = []; rest = s }
unfolding scan_word
scan_word-quote [] h = refl
scan_word-quote (c ∷ s) h = scan_word-Follows (c ∷ s) h

escaped-cons : (w rest : Text) → (d : ℕ) × (s : Text) × (escaped w rest ≡ d ∷ s)
unfolding escaped
escaped-cons [] rest = (b'"', rest, refl)
escaped-cons (c ∷ w) rest = elim (Bool-cases (is_special c)) [
  | inl special ↦ (b'\\', c ∷ escaped w rest, rw special)
  | inr plain ↦ (c, escaped w rest, rw plain)
]

scan_word-escaped :
    (w rest : Text)
    → Follows rest
    → scan_word true (escaped w rest) ≡ record { word = w; rest = rest }
unfolding escaped
scan_word-escaped [] rest h = scan_word-quote rest h
scan_word-escaped (c ∷ w) rest h =
    let ih = scan_word-escaped w rest h in
    elim (Bool-cases (is_special c)) [
      | inl special ↦ rw (special, scan_word-slash c (escaped w rest), ih)
      | inr plain ↦
          let (d, s, e) = escaped-cons w rest in rw (plain, e, scan_word-plain c d s plain, ← e, ih)
    ]

scan_word-open : (s : Text) → scan_word false (b'"' ∷ s) ≡ scan_word true s
unfolding scan_word
scan_word-open [] = refl
scan_word-open (c ∷ s) = refl

escaped-append : (w rest : Text) → escaped w [] ++ rest ≡ escaped w rest
unfolding escaped
escaped-append [] rest = refl
escaped-append (c ∷ w) rest = elim (Bool-cases (is_special c)) [
  | inl special ↦ rw (special, escaped-append w rest)
  | inr plain ↦ rw (plain, escaped-append w rest)
]

abbrev typed : List Text → Text
typed ws = build_string (map quoted ws)

-- What follows the first word of a typed line.
abbrev after : List Text → Text
after [] = []
after (w ∷ ws) = b' ' ∷ typed (w ∷ ws)

after-Follows : (ws : List Text) → Follows (after ws)
after-Follows [] = tt
after-Follows (w ∷ ws) = refl

typed-cons : (w : Text) (ws : List Text) → typed (w ∷ ws) ≡ b'"' ∷ escaped w (after ws)
unfolding build_string
typed-cons w [] = refl
typed-cons w (v ∷ ws) = rw (escaped-append w (b' ' ∷ typed (v ∷ ws)))

skip_blanks-typed : (ws : List Text) → skip_blanks (after ws) ≡ typed ws
unfolding skip_blanks build_string
skip_blanks-typed [] = refl
skip_blanks-typed (w ∷ ws) = rw (typed-cons w ws)

length-escaped : (w rest : Text) → length rest < length (escaped w rest)
unfolding escaped
length-escaped [] rest = omega arith
length-escaped (c ∷ w) rest = ground (arith, length-escaped w rest)

length-after : (ws : List Text) → length (typed ws) ≤ length (after ws)
unfolding build_string
length-after [] = omega arith
length-after (w ∷ ws) = omega arith

words_loop-typed :
    (fuel : ℕ) (ws : List Text) → length (typed ws) < fuel → words_loop fuel (typed ws) ≡ some ws
unfolding words_loop
words_loop-typed zero ws h = absurd (omega arith)
words_loop-typed (suc fuel) [] h = unfold build_string in refl
words_loop-typed (suc fuel) (w ∷ ws) h =
    let scanned =
      scan_word-open (escaped w (after ws)) ∙ scan_word-escaped w (after ws) (after-Follows ws) in
    let longer = ap length (typed-cons w ws) in
    let ih =
      words_loop-typed fuel ws
        (omega (arith, length-escaped w (after ws), length-after ws, longer)) in
    rw (typed-cons w ws, words_loop, scanned, skip_blanks-typed ws, ih)

skip_blanks_start : (ws : List Text) → skip_blanks (typed ws) ≡ typed ws
unfolding skip_blanks build_string
skip_blanks_start [] = refl
skip_blanks_start (w ∷ ws) = rw (typed-cons w ws)

-- Any list of words, whatever characters they hold and also if some are empty, is what
-- parse_into_words reads from the words in quotes, with a backslash before each quote and backslash
-- in them, that build_string puts together.
pub parse_into_words-build_string :
    (ws : List Text) → parse_into_words (build_string (map quoted ws)) ≡ some ws
unfolding parse_into_words
parse_into_words-build_string ws =
    rw (skip_blanks_start ws) (words_loop-typed (length (typed ws) + 1) ws (omega arith))
