-- ===== src/Command/Words/Room.antt =====
-- The words are written over the line that they are read from, and never overtake the reading.
use stunt.Prelude.{
  ℕ, zero, suc, ◌+◌, ◌≤◌, ◌<◌, ◌≡◌, refl, Bool, true, false, ◌&&◌, ◌||◌, not, some, List, [], ◌∷◌,
  arith, length, ◌==◌, Bool-cases, inl, inr, ◌⊎◌,
}
use stunt.Text.Case.{Text}
use stunt.Command.Words.{skip_blanks, scan_word, words_loop, parse_into_words}

-- The bytes that the words take, each with its NUL.
abbrev pub room : List Text → ℕ
room [] = 0
room (w ∷ ws) = length w + 1 + room ws

skip_blanks-le : (s : Text) → length (skip_blanks s) ≤ length s
unfolding skip_blanks
skip_blanks-le [] = omega arith
skip_blanks-le (c ∷ s) = ground (arith, skip_blanks-le s)

-- A word is no longer than what was read for it.
scan_word-le :
    (q : Bool) (s : Text) → length (scan_word q s).word + length (scan_word q s).rest ≤ length s
unfolding scan_word
scan_word-le q [] = omega arith
scan_word-le q (c ∷ []) = ground arith
scan_word-le q (c ∷ d ∷ s) =
    ground (arith, scan_word-le (not q) (d ∷ s), scan_word-le q s, scan_word-le q (d ∷ s))

-- The rest of the input, if there is one, begins with the blank that ended the word: the blanks
-- that are skipped make room for the NUL.
abbrev Ended : Text → Type 0
Ended s = (s ≡ []) ⊎ (length (skip_blanks s) < length s)

blank-Ended : (c : ℕ) (s : Text) → (c == b' ') ≡ true → Ended (c ∷ s)
unfolding skip_blanks
blank-Ended c s h = inr (rw h (omega (arith, skip_blanks-le s)))

blank_of : (q b : Bool) → not q && b ≡ true → b ≡ true
blank_of q b h = ground arith

scan_word-Ended : (q : Bool) (s : Text) → Ended (scan_word q s).rest
unfolding scan_word
scan_word-Ended q [] = inl refl
scan_word-Ended q (c ∷ []) = elim (Bool-cases (not q && (c == b' '))) [
  | inl stop ↦ rw stop (blank-Ended c [] (blank_of q _ stop))
  | inr go ↦ elim (Bool-cases ((c == b'"') || (c == b'\\'))) [
    | inl mark ↦ rw (go, mark) (inl refl)
    | inr plain ↦ rw (go, plain) (inl refl)
  ]
]
scan_word-Ended q (c ∷ d ∷ s) = elim (Bool-cases (not q && (c == b' '))) [
  | inl stop ↦ rw stop (blank-Ended c (d ∷ s) (blank_of q _ stop))
  | inr go ↦ elim (Bool-cases (c == b'"')) [
    | inl quote ↦ rw (go, quote) (scan_word-Ended (not q) (d ∷ s))
    | inr other ↦ elim (Bool-cases (c == b'\\')) [
      | inl escape ↦ rw (go, other, escape) (scan_word-Ended q s)
      | inr plain ↦ rw (go, other, plain) (scan_word-Ended q (d ∷ s))
    ]
  ]
]

-- The loop ends, and its words fit.
words_loop-room :
    (fuel : ℕ) (s : Text)
    → length s < fuel
    → (ws : List Text) × (words_loop fuel s ≡ some ws)
      × (room ws ≤ length s + 1)
      × (s ≡ [] → room ws ≡ 0)
unfolding words_loop skip_blanks
words_loop-room zero s h = absurd (omega arith)
words_loop-room (suc fuel) [] h = ([], refl, omega arith, λ e. refl)
words_loop-room (suc fuel) (c ∷ s) h = elim (scan_word-Ended false (c ∷ s)) [
  | inl all ↦
      let (ws, e, fits, none_left) = words_loop-room fuel [] (omega arith) in
      let nothing : room ws ≡ 0 = none_left refl in
      (
        (scan_word false (c ∷ s)).word ∷ ws,
        rw (all, skip_blanks, e),
        omega (arith, scan_word-le false (c ∷ s)),
        λ e'. cc,
      )
  | inr more ↦
      let le = scan_word-le false (c ∷ s) in
      let (ws, e, fits, none_left) =
        words_loop-room fuel (skip_blanks (scan_word false (c ∷ s)).rest) (omega arith) in
      ((scan_word false (c ∷ s)).word ∷ ws, rw e, omega arith, λ e'. cc)
]

-- For every line parse_into_words answers, and its words, each with its NUL, take no more bytes than
-- the line with its NUL: they fit into the buffer of the line, over which they are written.
pub parse_into_words-room :
    (input : Text)
    → (ws : List Text) × (parse_into_words input ≡ some ws) × (room ws ≤ length input + 1)
unfolding parse_into_words
parse_into_words-room input =
    let le = skip_blanks-le input in
    let (ws, e, fits, _) = words_loop-room (length input + 1) (skip_blanks input) (omega arith) in
    (ws, e, omega arith)
