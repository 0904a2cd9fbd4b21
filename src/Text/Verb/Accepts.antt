-- ===== src/Text/Verb/Accepts.antt =====
-- The scan of one name accepts a word exactly if the name matches it.
use stunt.Prelude.{
  ℕ, suc, ◌+◌, ◌≡◌, refl, Bool, true, false, ◌&&◌, ◌||◌, [], ◌∷◌, ◌++◌, arith, leb, length, ◌==◌,
  ◌∙◌, Bool-cases, inl, inr,
}
use stunt.Text.Case.{Text, cmap}
use stunt.Text.Verb.{Star, inner, star_after, scan, accepts, is_starred, is_end, skip_name}
use stunt.Text.Verb.Spec.{letters, required, ends_in_star, begins, NoSpace, Ends}

abbrev pub star_matches : Star → Text → Text → Bool
star_matches st n w =
    (begins w (letters n) && (is_starred st || leb (required n) (length w)))
    || (ends_in_star n && begins (letters n) w)

scan-star :
    (c : ℕ) (v w : Text) (st : Star)
    → (c == b'*') ≡ true
    → scan (c ∷ v) w st ≡ scan v w (star_after v)
unfolding scan
scan-star c v [] st h = rw h
scan-star c v (d ∷ w) st h = rw h

ends_in_star-letter :
    (c : ℕ) (v : Text) → (c == b'*') ≡ false → ends_in_star (c ∷ v) ≡ ends_in_star v
unfolding ends_in_star
ends_in_star-letter c [] h = h
ends_in_star-letter c (d ∷ v) h = refl

leb-suc : (a b : ℕ) → leb (a + 1) (suc b) ≡ leb a b
leb-suc a b = ground arith

==-sym : (a b : ℕ) → (a == b) ≡ (b == a)
==-sym a b = ground arith

or-leb_zero : (b : Bool) (n : ℕ) → (b || leb 0 n) ≡ true
or-leb_zero true n = refl
or-leb_zero false n = ground arith

-- A scan that no letter of the word goes on with.
accepts-stop :
    (c d : ℕ) (n v w : Text) (st : Star)
    → (c == b'*') ≡ false
    → (cmap d == cmap c) ≡ false
    → is_end st ≡ false
    → accepts (record { v = v; w = d ∷ w; star = st }) ≡ star_matches st (c ∷ n) (d ∷ w)
unfolding accepts letters begins
accepts-stop c d n v w st letter other k = ground (arith, ==-sym (cmap c) (cmap d))

scan-empty :
    (c : ℕ) (v : Text) (st : Star)
    → (c == b'*') ≡ false
    → scan (c ∷ v) [] st ≡ record { v = c ∷ v; w = []; star = st }
unfolding scan
scan-empty c v st h = rw h

module _ (c d : ℕ) (v w : Text) (st : Star) (letter : (c == b'*') ≡ false)
    (word : (c == b' ') ≡ false) where
  scan-letter : (cmap d == cmap c) ≡ true → scan (c ∷ v) (d ∷ w) st ≡ scan v w st
  unfolding scan
  scan-letter h = rw (letter, word, h)

  scan-other :
      (cmap d == cmap c) ≡ false
      → scan (c ∷ v) (d ∷ w) st ≡ record { v = c ∷ v; w = d ∷ w; star = st }
  unfolding scan
  scan-other h = rw (letter, word, h)

  star_matches-letter :
      (cmap d == cmap c) ≡ true → star_matches st (c ∷ v) (d ∷ w) ≡ star_matches st v w
  unfolding letters required ends_in_star begins
  star_matches-letter h =
      simp (ends_in_star-letter c v letter, letter, h, ==-sym (cmap c) (cmap d), leb-suc)

star_matches-star :
    (c c' : ℕ) (n w : Text) (st : Star)
    → (c == b'*') ≡ true
    → star_matches st (c ∷ c' ∷ n) w ≡ star_matches inner (c' ∷ n) w
unfolding letters required ends_in_star
star_matches-star c c' n w st h = simp (h, or-leb_zero)

accepts-empty :
    (c : ℕ) (n v : Text) (st : Star)
    → (c == b'*') ≡ false
    → (c == b' ') ≡ false
    → accepts (record { v = c ∷ v; w = []; star = st }) ≡ star_matches st (c ∷ n) []
unfolding accepts letters required begins
accepts-empty c n v st letter word = ground arith

abbrev is_short : Text → Bool
is_short [] = true
is_short (c ∷ []) = true
is_short (c ∷ d ∷ n) = false

accepts-scan_short :
    (n rest w : Text) (st : Star)
    → is_short n ≡ true
    → NoSpace n
    → Ends rest
    → is_end st ≡ false
    → accepts (scan (n ++ rest) w st) ≡ star_matches st n w
unfolding scan accepts letters required ends_in_star begins
accepts-scan_short [] [] [] st s h e k = ground arith
accepts-scan_short [] [] (d ∷ w) st s h e k = ground arith
accepts-scan_short [] (c ∷ r) [] st s h e k = ground arith
accepts-scan_short [] (c ∷ r) (d ∷ w) st s h e k = ground arith
accepts-scan_short (c ∷ []) [] [] st s h e k = ground arith
accepts-scan_short (c ∷ []) (x ∷ r) [] st s h e k = ground arith
accepts-scan_short (c ∷ []) [] (d ∷ w) st s h e k = ground arith
accepts-scan_short (c ∷ []) (x ∷ r) (d ∷ w) st s h e k = ground arith
accepts-scan_short (c ∷ c' ∷ n) rest w st s h e k = cc

pub accepts-scan :
    (n rest w : Text) (st : Star)
    → NoSpace n
    → Ends rest
    → is_end st ≡ false
    → accepts (scan (n ++ rest) w st) ≡ star_matches st n w
accepts-scan [] rest w st h e k = accepts-scan_short [] rest w st refl h e k
accepts-scan (c ∷ []) rest w st h e k = accepts-scan_short (c ∷ []) rest w st refl h e k
accepts-scan (c ∷ c' ∷ n) rest [] st h e k = elim (Bool-cases (c == b'*')) [
  | inl starred ↦
      rw (scan-star c _ [] st starred, star_matches-star c c' n [] st starred, h.1.0)
        (accepts-scan (c' ∷ n) rest [] inner h.1 e refl)
  | inr letter ↦ rw (scan-empty c _ st letter) (accepts-empty c _ _ st letter h.0)
]
accepts-scan (c ∷ c' ∷ n) rest (d ∷ w) st h e k = elim (Bool-cases (c == b'*')) [
  | inl starred ↦
      rw (scan-star c _ (d ∷ w) st starred, star_matches-star c c' n (d ∷ w) st starred, h.1.0)
        (accepts-scan (c' ∷ n) rest (d ∷ w) inner h.1 e refl)
  | inr letter ↦ elim (Bool-cases (cmap d == cmap c)) [
    | inl same ↦
        rw
          (
            scan-letter c d _ w st letter h.0 same,
            star_matches-letter c d (c' ∷ n) w st letter h.0 same,
          )
          (accepts-scan (c' ∷ n) rest w st h.1 e k)
    | inr other ↦
        rw (scan-other c d _ w st letter h.0 other) (accepts-stop c d _ _ w st letter other k)
  ]
]

skip_name-same : (c : ℕ) (v : Text) → (c == b' ') ≡ false → skip_name (c ∷ v) ≡ skip_name v
unfolding skip_name
skip_name-same c v h = rw h

skip_name-append : (n rest : Text) → NoSpace n → skip_name (n ++ rest) ≡ skip_name rest
skip_name-append [] rest h = refl
skip_name-append (c ∷ n) rest h = skip_name-same c (n ++ rest) h.0 ∙ skip_name-append n rest h.1

-- The scan does not leave the name.
pub skip_name-scan :
    (n rest w : Text) (st : Star)
    → NoSpace n
    → Ends rest
    → skip_name (scan (n ++ rest) w st).v ≡ skip_name rest
unfolding scan
skip_name-scan [] [] [] st h e = refl
skip_name-scan [] [] (d ∷ w) st h e = refl
skip_name-scan [] (c ∷ r) [] st h e = ground arith
skip_name-scan [] (c ∷ r) (d ∷ w) st h e = ground arith
skip_name-scan (c ∷ n) rest [] st h e = ground (
  arith,
  skip_name-scan n rest [] (star_after (n ++ rest)) h.1 e,
  skip_name-same c (n ++ rest) h.0,
  skip_name-append n rest h.1,
)
skip_name-scan (c ∷ n) rest (d ∷ w) st h e = ground (
  arith,
  skip_name-scan n rest (d ∷ w) (star_after (n ++ rest)) h.1 e,
  skip_name-scan n rest w st h.1 e,
  skip_name-same c (n ++ rest) h.0,
  skip_name-append n rest h.1,
)
