-- ===== src/Text/Ranged.antt =====
-- list.cc: what each character of a string is after an assignment to a range.
use stunt.Prelude.{
  ℕ, zero, suc, ◌+◌, ◌-◌, ◌≤◌, ◌<◌, ◌≡◌, refl, ap, ◌∙◌, List, [], ◌∷◌, ◌++◌, arith, length, take,
  drop, get_elem?, ltb, if◌then◌else◌, length-take, Bool-cases, inl, inr,
}
use stunt.Lists.{listrangeset}
use stunt.Lists.Ranges.{listrangeset-append}
use stunt.Text.Case.{Text}
use stunt.Text.Pieces.{strrangeset, strget}

module _ {ℓ} {A : Type ℓ} where
  get_elem?-append_left :
      (xs ys : List A) (i : ℕ) → i < length xs → get_elem? (xs ++ ys) i ≡ get_elem? xs i
  get_elem?-append_left [] ys i h = absurd (omega arith)
  get_elem?-append_left (x ∷ xs) ys zero h = refl
  get_elem?-append_left (x ∷ xs) ys (suc i) h = get_elem?-append_left xs ys i (omega arith)

  get_elem?-append_right :
      (xs ys : List A) (i n : ℕ) → i ≡ length xs + n → get_elem? (xs ++ ys) i ≡ get_elem? ys n
  get_elem?-append_right [] ys i n h = ap (λ (m : ℕ). get_elem? ys m) (omega arith)
  get_elem?-append_right (x ∷ xs) ys zero n h = absurd (omega arith)
  get_elem?-append_right (x ∷ xs) ys (suc i) n h = get_elem?-append_right xs ys i n (omega arith)

  get_elem?-take : (n : ℕ) (xs : List A) (i : ℕ) → i < n → get_elem? (take n xs) i ≡ get_elem? xs i
  get_elem?-take zero xs i h = absurd (omega arith)
  get_elem?-take (suc n) [] i h = refl
  get_elem?-take (suc n) (x ∷ xs) zero h = refl
  get_elem?-take (suc n) (x ∷ xs) (suc i) h = get_elem?-take n xs i (omega arith)

  get_elem?-drop :
      (n : ℕ) (xs : List A) (i j : ℕ) → j ≡ n + i → get_elem? (drop n xs) i ≡ get_elem? xs j
  get_elem?-drop zero xs i j h = ap (λ (m : ℕ). get_elem? xs m) (omega arith)
  get_elem?-drop (suc n) [] i j h = refl
  get_elem?-drop (suc n) (x ∷ xs) i zero h = absurd (omega arith)
  get_elem?-drop (suc n) (x ∷ xs) i (suc j) h = get_elem?-drop n xs i j (omega arith)

strrangeset_lem :
    (base value : Text) (from to : ℕ)
    → 1 ≤ from
    → strrangeset base from to value ≡ take (from - 1) base ++ (value ++ drop to base)
unfolding strrangeset listrangeset
strrangeset_lem base value from to h = listrangeset-append base value from to h

-- The character at a place counted from 0, after the assignment.
get_elem?-strrangeset :
    (base value : Text) (from to i : ℕ)
    → 1 ≤ from
    → from ≤ length base + 1
    → get_elem? (strrangeset base from to value) i ≡ (
        if ltb i (from - 1)
        then get_elem? base i
        else if ltb i (from - 1 + length value)
        then get_elem? value (i - (from - 1))
        else get_elem? base (to + (i - (from - 1 + length value))))
get_elem?-strrangeset base value from to i h k =
    let left : length (take (from - 1) base) ≡ from - 1 =
      omega (arith, length-take (from - 1) base) in
    rw (strrangeset_lem base value from to h) (elim (Bool-cases (ltb i (from - 1))) [
      | inl before ↦ rw before (
          get_elem?-append_left _ _ i (ground (arith, left))
          ∙ get_elem?-take (from - 1) base i (ground arith))
      | inr after ↦ rw after (
          get_elem?-append_right _ (value ++ drop to base) i (i - (from - 1)) (ground (arith, left))
          ∙ elim (Bool-cases (ltb i (from - 1 + length value))) [
            | inl inside ↦ rw inside (get_elem?-append_left value _ _ (ground arith))
            | inr beyond ↦ rw beyond (
                get_elem?-append_right value _ _ (i - (from - 1 + length value)) (ground arith)
                ∙ get_elem?-drop to base _ _ refl)
          ])
    ])

-- After an assignment to a range of a string, from 1 up to one past the end: each character before the
-- range is the one before; the characters from its start, as many as the value has, are those of the
-- value; and those after them are the ones that stood after the end of the range. A place past the end
-- of the new string is one past the end of the base.
pub strget-strrangeset :
    (base value : Text) (from to i : ℕ)
    → 1 ≤ from
    → from ≤ length base + 1
    → 1 ≤ i
    → strget (strrangeset base from to value) i ≡ (
        if ltb i from
        then strget base i
        else if ltb i (from + length value)
        then strget value (i - from + 1)
        else strget base (to + (i - (from + length value)) + 1))
unfolding strget
strget-strrangeset base value from to i h k l =
    let n = length value in
    let e1 : ltb (i - 1) (from - 1) ≡ ltb i from = ground arith in
    let e2 : ltb (i - 1) (from - 1 + n) ≡ ltb i (from + n) = ground arith in
    let e3 : i - 1 - (from - 1) ≡ i - from + 1 - 1 = omega arith in
    let e4 : to + (i - 1 - (from - 1 + n)) ≡ to + (i - (from + n)) + 1 - 1 = omega arith in
    rw (get_elem?-strrangeset base value from to (i - 1) h k, e1, e2)
      (elim (Bool-cases (ltb i from)) [
        | inl before ↦ rw before refl
        | inr after ↦ rw after (elim (Bool-cases (ltb i (from + n))) [
          | inl inside ↦ rw (inside, e3) refl
          | inr beyond ↦ rw (beyond, e4) refl
        ])
      ])
