-- ===== src/Text/Substitute/Inside.antt =====
-- A list of matches that passes its check is never read outside of the subject.
use stunt.Prelude.{
  ℕ, zero, suc, ◌+◌, ◌-◌, ◌≤◌, ◌<◌, ◌≡◌, refl, Bool, true, false, ◌&&◌, ◌||◌, not, Option, [], ◌∷◌,
  ◌++◌, arith, length, get_elem?, leb, ◌==◌, Bool-cases, Option-cases, inl, inr, ◌⊎◌,
}
use mathlib.Core.Option.{some}
use stunt.Prelude.Int.{ℤ, pos, negsuc, pos_part, ◌+ℤ◌, ◌-ℤ◌, +ℤ_parts, -ℤ_parts}
use stunt.Text.Case.{Text}
use stunt.Value.{e_invarg, Var, Items, nil, cons}
use stunt.Value.Equality.{count}
use stunt.Lists.Builtins.{Reply, make_var_pack, make_error_pack, make_abort_pack}
use stunt.Text.Substitute.{
  invalid_pair, pair_of, bad_pair, bad_pairs, Match, match_of, bad_match, check_subs_list, pair_at,
  read, range, before, fill, bf_substitute,
}

char_at : (s : Text) (i : ℕ) → i < length s → (c : ℕ) × (get_elem? s i ≡ some c)
char_at [] i h = absurd (omega arith)
char_at (x ∷ s) zero h = (x, refl)
char_at (x ∷ s) (suc i) h = char_at s i (omega arith)

read-inside :
    (subject : Text) (n start : ℕ)
    → start + n ≤ length subject
    → (t : Text) × (read subject (pos start) n ≡ some t)
unfolding read
read-inside subject zero start h = ([], refl)
read-inside subject (suc n) start h =
    let (rest, e) = read-inside subject n (start + 1) (omega arith) in
    let (c, e') = char_at subject start (omega arith) in (c ∷ rest, rw (e', e, read))

read_none : (subject : Text) (s : ℤ) (n : ℕ) → n ≡ 0 → read subject s n ≡ some []
unfolding read
read_none subject (pos s) zero h = refl
read_none subject (negsuc s) zero h = refl
read_none subject (pos s) (suc n) h = absurd (omega arith)
read_none subject (negsuc s) (suc n) h = absurd (omega arith)

-- What a valid pair is.
valid_pair :
    (a b : ℤ) (max : ℕ)
    → invalid_pair a b max ≡ false
    → (pos_part (b -ℤ a +ℤ pos 1) ≡ 0)
      ⊎ ((m : ℕ) × (a -ℤ pos 1 ≡ pos m) × (m + pos_part (b -ℤ a +ℤ pos 1) ≤ max))
unfolding invalid_pair
valid_pair (negsuc a) b max h = absurd (ground arith)
valid_pair (pos zero) b max h =
    inl (ground (arith, -ℤ_parts b (pos zero), +ℤ_parts (b -ℤ pos zero) (pos 1)))
valid_pair (pos (suc m)) b max h = inr (
  m,
  ground (arith, -ℤ_parts (pos (suc m)) (pos 1)),
  ground (
    arith,
    -ℤ_parts b (pos (suc m)),
    +ℤ_parts (b -ℤ pos (suc m)) (pos 1),
    -ℤ_parts (pos (suc m)) (pos 1),
  ),
)

range-inside :
    (subject : Text) (a b : ℤ)
    → invalid_pair a b (length subject) ≡ false
    → (t : Text) × (range subject (some (a, b)) ≡ some t)
range-inside subject a b h = elim (valid_pair a b (length subject) h) [
  | inl empty ↦ ([], read_none subject (a -ℤ pos 1) _ empty)
  | inr (m, start, fits) ↦ rw start (read-inside subject (pos_part (b -ℤ a +ℤ pos 1)) m fits)
]

-- What is sure of a pair that passed.
abbrev Good : Text → Option (ℤ × ℤ) → Type 0
Good subject p = (t : Text) × (range subject p ≡ some t)

passed :
    (subject : Text) (p : Option (ℤ × ℤ)) → bad_pair p (length subject) ≡ false → Good subject p
passed subject Option.none h = absurd (ground arith)
passed subject (some (a, b)) h = range-inside subject a b h

or_left : (a b : Bool) → a || b ≡ false → a ≡ false
or_left a b h = ground arith

or_right : (a b : Bool) → a || b ≡ false → b ≡ false
or_right a b h = ground arith

pair_at-inside :
    (subject : Text) (xs : Items) (k : ℕ)
    → bad_pairs xs (length subject) ≡ false
    → k < count xs
    → Good subject (pair_at xs k)
unfolding bad_pairs pair_at count
pair_at-inside subject nil k h lt = absurd (omega arith)
pair_at-inside subject (cons v xs) zero h lt = passed subject (pair_of v) (or_left _ _ h)
pair_at-inside subject (cons v xs) (suc k) h lt =
    pair_at-inside subject xs k (or_right _ _ h) (omega arith)

before-some : (s : Text) (r : Reply Text) → (r' : Reply Text) × (before (some s) (some r) ≡ some r')
before-some s (make_var_pack t) = (make_var_pack (s ++ t), refl)
before-some s (make_error_pack e) = (make_error_pack e, refl)
before-some s make_abort_pack = (make_abort_pack, refl)

-- The call answers, with a value or an error.
abbrev pub Answers : Option (Reply Text) → Type 0
Answers r = (r' : Reply Text) × (r ≡ some r')

joined :
    (s : Option Text) (r : Option (Reply Text))
    → (t : Text) × (s ≡ some t)
    → Answers r
    → Answers (before s r)
joined s r (t, e) (r', e') = rw (e, e') (before-some t r')

module _ (subject : Text) (whole : ℤ × ℤ) (pairs : Items) (outer : Good subject (some whole))
    (inner : (k : ℕ) → k < 9 → Good subject (pair_at pairs k)) where
  fill-Answers : (template : Text) → Answers (fill subject whole pairs template)
  unfolding fill
  fill-Answers [] = (make_var_pack [], refl)
  fill-Answers (c ∷ []) = elim (Bool-cases (c == 37)) [
    | inl percent ↦ rw percent (make_error_pack e_invarg, refl)
    | inr other ↦ rw other (make_var_pack (c ∷ []), refl)
  ]
  fill-Answers (c ∷ d ∷ t) =
      let rest = fill-Answers t in
      let plain = fill-Answers (d ∷ t) in
      elim (Bool-cases (c == 37)) [
        | inr other ↦ rw other (joined (some (c ∷ [])) _ (c ∷ [], refl) plain)
        | inl percent ↦ elim (Bool-cases (d == 37)) [
          | inl twice ↦ rw (percent, twice) (joined (some (37 ∷ [])) _ (37 ∷ [], refl) rest)
          | inr one ↦ elim (Bool-cases (leb 49 d && leb d 57)) [
            | inl digit ↦
                let small : d - 49 < 9 = ground arith in
                rw (percent, one, digit) (joined _ _ (inner (d - 49) small) rest)
            | inr no_digit ↦ elim (Bool-cases (d == 48)) [
              | inl zeroth ↦ rw (percent, one, no_digit, zeroth) (joined _ _ outer rest)
              | inr bad ↦ rw (percent, one, no_digit, bad) (make_error_pack e_invarg, refl)
            ]
          ]
        ]
      ]

count_nine : (a b c : Bool) → not a || b || c ≡ false → a ≡ true
count_nine a b c h = ground arith

pairs_good : (a b c : Bool) → not a || b || c ≡ false → (b ≡ false) × (c ≡ false)
pairs_good a b c h = (ground arith, ground arith)

check_subs_list-match :
    (subs : Var) (m : Match) → match_of subs ≡ some m → check_subs_list subs ≡ bad_match m
unfolding check_subs_list
check_subs_list-match subs m e = rw (e, check_subs_list)

check_subs_list-other : (subs : Var) → match_of subs ≡ Option.none → check_subs_list subs ≡ true
unfolding check_subs_list
check_subs_list-other subs e = rw (e, check_subs_list)

-- The built-in substitute answers for every template and every value of a match, and it never reads
-- outside the subject: the check lets only those pairs through whose range lies inside.
pub bf_substitute-inside : (template : Text) (subs : Var) → Answers (bf_substitute template subs)
unfolding bf_substitute
bf_substitute-inside template subs = elim (Option-cases (match_of subs)) [
  | inl other ↦ rw (other, check_subs_list-other subs other) (make_error_pack e_invarg, refl)
  | inr (m, e) ↦ elim (Bool-cases (bad_match m)) [
    | inl bad ↦ rw (e, check_subs_list-match subs m e, bad) (make_error_pack e_invarg, refl)
    | inr good ↦
        let nine = count_nine (count m.pairs == 9) _ _ good in
        let (whole, parts) = pairs_good (count m.pairs == 9) _ _ good in
        rw (e, check_subs_list-match subs m e, good)
          (fill-Answers m.subject (m.first, m.last) m.pairs
            (range-inside m.subject m.first m.last whole)
            (λ k lt. pair_at-inside m.subject m.pairs k parts (ground (arith, lt, nine))) template)
  ]
]
