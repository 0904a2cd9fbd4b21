-- ===== src/Lists/Ranges.antt =====
-- What an assignment to a range of a list leaves, read back as ranges.
use stunt.Prelude.{
  ℕ, zero, suc, ◌+◌, ◌-◌, ◌≤◌, ◌≡◌, refl, ap, List, [], ◌∷◌, ◌++◌, arith, length, take, drop, ltb,
  if◌then◌else◌, length-append, length-take, length-drop, Bool-cases, inl, inr,
}
use stunt.Lists.{listrangeset, sublist}

module _ {ℓ} {A : Type ℓ} where
  pub take-take_append :
      (n : ℕ) (xs ys : List A) → n ≤ length xs → take n (take n xs ++ ys) ≡ take n xs
  take-take_append zero xs ys h = refl
  take-take_append (suc n) [] ys h = absurd (omega arith)
  take-take_append (suc n) (x ∷ xs) ys h = ap (λ t. x ∷ t) (take-take_append n xs ys (omega arith))

  pub drop-take_append : (n : ℕ) (xs ys : List A) → n ≤ length xs → drop n (take n xs ++ ys) ≡ ys
  drop-take_append zero xs ys h = refl
  drop-take_append (suc n) [] ys h = absurd (omega arith)
  drop-take_append (suc n) (x ∷ xs) ys h = drop-take_append n xs ys (omega arith)

  take_all : (xs : List A) (n : ℕ) → n ≡ length xs → take n xs ≡ xs
  take_all [] zero h = refl
  take_all [] (suc n) h = refl
  take_all (x ∷ xs) zero h = absurd (omega arith)
  take_all (x ∷ xs) (suc n) h = ap (λ t. x ∷ t) (take_all xs n (omega arith))

  -- The list after the assignment, without the tests.
  pub listrangeset-append :
      (base value : List A) (from to : ℕ)
      → 1 ≤ from
      → listrangeset base from to value ≡ take (from - 1) base ++ (value ++ drop to base)
  unfolding listrangeset
  listrangeset-append base value from to h =
      let left : (if ltb 1 from then from - 1 else 0) ≡ from - 1 = ground arith in
      let right : (if ltb to (length base) then length base - to else 0) ≡ length (drop to base) =
        ground (arith, length-drop to base) in
      rw (left, right, take_all (drop to base) (length (drop to base)) refl)

  length-range :
      (base value : List A) (from to : ℕ)
      → 1 ≤ from
      → from ≤ length base + 1
      → length (take (from - 1) base ++ (value ++ drop to base))
        ≡ from - 1 + length value + (length base - to)
  length-range base value from to h k = omega (
    arith,
    length-append (take (from - 1) base) (value ++ drop to base),
    length-append value (drop to base),
    length-take (from - 1) base,
    length-drop to base,
  )

  take_front : (xs ys : List A) (n : ℕ) → n ≡ length xs → take n (xs ++ ys) ≡ xs
  take_front [] ys zero h = refl
  take_front [] ys (suc n) h = absurd (omega arith)
  take_front (x ∷ xs) ys zero h = absurd (omega arith)
  take_front (x ∷ xs) ys (suc n) h = ap (λ t. x ∷ t) (take_front xs ys n (omega arith))

  -- An assignment to a range of a list, from 1 up to one past the end: the range at the same place,
  -- as long as the value, is the value; the elements before it are the ones before; and the length
  -- is that of the two outer parts and of the value.
  pub sublist-listrangeset :
      (base value : List A) (from to : ℕ)
      → 1 ≤ from
      → from ≤ length base + 1
      → (sublist (listrangeset base from to value) from (from + length value - 1) ≡ value)
        × (take (from - 1) (listrangeset base from to value) ≡ take (from - 1) base)
        × (length (listrangeset base from to value) ≡ from - 1 + length value + (length base - to))
  unfolding sublist
  sublist-listrangeset base value from to h k = rw (listrangeset-append base value from to h) (
    elim (Bool-cases (ltb (from + length value - 1) from)) [
      | inl empty ↦ rw empty (nothing_left value (ground arith))
      | inr some_left ↦
          rw (some_left, drop-take_append (from - 1) base (value ++ drop to base) (omega arith))
            (take_front value (drop to base) (from + length value - 1 - from + 1) (ground arith))
    ],
    take-take_append (from - 1) base (value ++ drop to base) (omega arith),
    length-range base value from to h k,
  )
    where
      nothing_left : (xs : List A) → length xs ≡ 0 → [] ≡ xs
      nothing_left [] e = refl
      nothing_left (x ∷ xs) e = absurd (omega arith)
