-- ===== src/Lists/Sets.antt =====
-- Lists used as sets, counted by the elements that are equal to one value.
use stunt.Prelude.{
  ℕ, zero, suc, ◌+◌, ◌-◌, ◌≡◌, refl, ap, ◌∙◌, Bool, true, false, List, [], ◌∷◌, ◌++◌, arith, length,
  take-length, drop-length, ◌&&◌, ◌==◌, if◌then◌else◌, Bool-cases, inl, inr,
}
use stunt.Prelude.Int.{ℤ, eqb_ℤ}
use stunt.Lists.{ismember_from, ismember, listappend, listdelete, setadd, setremove}

suc-zero : (n : ℕ) → (suc n == 0) ≡ false
suc-zero n = ground arith

module _ {ℓ} {A : Type ℓ} where
  unfoldable pub count : (A → A → Bool) → A → List A → ℕ
  count eq v [] = 0
  count eq v (x ∷ xs) = let rest = count eq v xs in if eq v x then rest + 1 else rest

  pub count-append :
      (eq : A → A → Bool) (v : A) (xs ys : List A)
      → count eq v (xs ++ ys) ≡ count eq v xs + count eq v ys
  unfolding count
  count-append eq v [] ys = omega arith
  count-append eq v (x ∷ xs) ys = ground (arith, count-append eq v xs ys)

  -- An append in place and an append by copying give one list.
  pub listappend_lem : (refs : ℕ) (xs : List A) (v : A) → listappend refs xs v ≡ xs ++ v ∷ []
  unfolding listappend
  listappend_lem refs xs v =
      let e : length xs + 1 - 1 ≡ length xs = omega arith in
      elim (Bool-cases ((refs == 1) && (length xs + 1 == length xs + 1))) [
        | inl own ↦ rw own
        | inr shared ↦ rw (shared, e, take-length xs, drop-length xs)
      ]

  module _ (eq : A → A → Bool) where
    -- Equal values are equal to the same values.
    abbrev pub IsCongruent : Type ℓ
    IsCongruent = (a b c : A) → eq a b ≡ true → (eq a c ≡ eq b c) × (eq c a ≡ eq c b)

    pub same-IsCongruent : ((a b : A) → eq a b ≡ true → a ≡ b) → IsCongruent
    same-IsCongruent same a b c h = (ap (λ t. eq t c) (same a b h), ap (λ t. eq c t) (same a b h))

    count_equal :
        IsCongruent → (v w : A) (xs : List A) → eq w v ≡ true → count eq w xs ≡ count eq v xs
    unfolding count
    count_equal same v w [] h = refl
    count_equal same v w (x ∷ xs) h = rw ((same w v x h).0, count_equal same v w xs h)

    -- The list without the first element that is equal to the value.
    remove_first : A → List A → List A
    remove_first v [] = []
    remove_first v (x ∷ xs) = let rest = remove_first v xs in if eq v x then xs else x ∷ rest

    ismember_from-suc :
        (i : ℕ) (v : A) (xs : List A)
        → ismember_from eq (suc (suc i)) v xs
          ≡ (if ismember_from eq (suc i) v xs == 0 then 0 else suc (ismember_from eq (suc i) v xs))
    unfolding ismember_from
    ismember_from-suc i v [] = refl
    ismember_from-suc i v (x ∷ xs) = elim (Bool-cases (eq v x)) [
      | inl hit ↦ rw hit (ground arith)
      | inr miss ↦ rw miss (ismember_from-suc (suc i) v xs)
    ]

    ismember-count :
        (i : ℕ) (v : A) (xs : List A) → (ismember_from eq (suc i) v xs == 0) ≡ (count eq v xs == 0)
    unfolding ismember_from count
    ismember-count i v [] = refl
    ismember-count i v (x ∷ xs) = elim (Bool-cases (eq v x)) [
      | inl hit ↦ rw hit (ground arith)
      | inr miss ↦ rw miss (ismember-count (suc i) v xs)
    ]

    listdelete-suc :
        (x : A) (xs : List A) (m : ℕ)
        → (m == 0) ≡ false
        → listdelete (x ∷ xs) (suc m) ≡ x ∷ listdelete xs m
    unfolding listdelete
    listdelete-suc x xs zero h = cc
    listdelete-suc x xs (suc m) h =
        let e : suc (suc m) - 1 ≡ suc m = omega arith in
        let e' : suc m - 1 ≡ m = omega arith in rw (e, e')

    ismember_from-miss :
        (v x : A) (xs : List A)
        → eq v x ≡ false
        → ismember_from eq 1 v (x ∷ xs)
          ≡ (if ismember_from eq 1 v xs == 0 then 0 else suc (ismember_from eq 1 v xs))
    unfolding ismember_from
    ismember_from-miss v x xs miss = rw miss (ismember_from-suc 0 v xs)

    setremove-first : (v : A) (xs : List A) → setremove eq xs v ≡ remove_first v xs
    unfolding setremove remove_first
    setremove-first v [] = refl
    setremove-first v (x ∷ xs) = elim (Bool-cases (eq v x)) [
      | inl hit ↦ rw (ismember_from, hit)
      | inr miss ↦ elim (Bool-cases (ismember_from eq 1 v xs == 0)) [
        | inl absent ↦
            rw (ismember_from-miss v x xs miss, absent, miss)
              (ap (λ t. x ∷ t) (rw absent at (setremove-first v xs)))
        | inr present ↦
            rw
              (
                ismember_from-miss v x xs miss,
                present,
                suc-zero (ismember_from eq 1 v xs),
                miss,
                listdelete-suc x xs _ present,
              )
              (ap (λ t. x ∷ t) (rw present at (setremove-first v xs)))
      ]
    ]

    count_one : (v w : A) → count eq w (v ∷ []) ≡ (if eq w v then 1 else 0)
    unfolding count
    count_one v w = ground arith

    pub count-setadd :
        (refs : ℕ) (v w : A) (xs : List A)
        → count eq w (setadd eq refs xs v)
          ≡ count eq w xs + (if count eq v xs == 0 then (if eq w v then 1 else 0) else 0)
    unfolding setadd ismember
    count-setadd refs v w xs = rw (ismember-count 0 v xs) (elim (Bool-cases (count eq v xs == 0)) [
      | inl fresh ↦
          rw (fresh, listappend_lem refs xs v, count-append eq w xs (v ∷ []))
            (ap (λ (t : ℕ). count eq w xs + t) (count_one v w))
      | inr old ↦ rw old (omega arith)
    ])

    count-remove_first :
        IsCongruent
        → (v w : A) (xs : List A)
        → count eq w (remove_first v xs)
          ≡ count eq w xs - (if eq w v then (if count eq v xs == 0 then 0 else 1) else 0)
    unfolding count remove_first
    count-remove_first same v w [] = ground arith
    count-remove_first same v w (x ∷ xs) = elim (Bool-cases (eq v x)) [
      | inl hit ↦ rw hit (ground (arith, (same v x w hit).1))
      | inr miss ↦ rw miss (elim (Bool-cases (eq w v)) [
        | inl one ↦ ground (arith, count-remove_first same v w xs, count_equal same v w xs one)
        | inr two ↦ rw two (ground (arith, rw two at (count-remove_first same v w xs)))
      ])
    ]

    pub count-setremove :
        IsCongruent
        → (v w : A) (xs : List A)
        → count eq w (setremove eq xs v)
          ≡ count eq w xs - (if eq w v then (if count eq v xs == 0 then 0 else 1) else 0)
    count-setremove same v w xs = rw (setremove-first v xs) (count-remove_first same v w xs)

    module _ (eq_refl : (a : A) → eq a a ≡ true) (same : (a b : A) → eq a b ≡ true → a ≡ b)
        (v w : A) (xs : List A) where
      -- A value that is there at most once is taken away.
      pub count-setremove_once :
          (held : Bool)
          → count eq v xs ≡ (if held then 1 else 0)
          → count eq w (if held then setremove eq xs v else xs)
            ≡ (if eq w v then 0 else count eq w xs)
      count-setremove_once held h = elim (Bool-cases (eq w v)) [
        | inl hit ↦ rw hit (
            ground (
              arith,
              count-setremove (same-IsCongruent same) v w xs,
              ap (λ a. count eq a xs) (same w v hit),
            ))
        | inr miss ↦
            rw miss (ground (arith, rw miss at (count-setremove (same-IsCongruent same) v w xs)))
      ]

      -- A value that is not there is added once.
      pub count-setadd_once :
          (add : Bool)
          → count eq v xs ≡ 0
          → count eq w (if add then setadd eq 1 xs v else xs)
            ≡ (if eq w v then (if add then 1 else 0) else count eq w xs)
      count-setadd_once add h = elim (Bool-cases (eq w v)) [
        | inl hit ↦ rw hit (
            ground
              (arith, rw hit at (count-setadd 1 v w xs), ap (λ a. count eq a xs) (same w v hit)))
        | inr miss ↦ rw miss (ground (arith, rw miss at (count-setadd 1 v w xs)))
      ]

    -- A value that is taken away, if it was there, and then added, or not.
    pub count-setadd-setremove :
        (eq_refl : (a : A) → eq a a ≡ true)
        → (same : (a b : A) → eq a b ≡ true → a ≡ b) → (v w : A) (xs : List A) (held add : Bool)
        → count eq v xs ≡ (if held then 1 else 0)
        → count eq w (
            let kept = if held then setremove eq xs v else xs in
            if add then setadd eq 1 kept v else kept)
          ≡ (if eq w v then (if add then 1 else 0) else count eq w xs)
    count-setadd-setremove eq_refl same v w xs held add h =
        count-setadd_once eq_refl same v w _ add
          (rw eq_refl at (count-setremove_once eq_refl same v v xs held h))
        ∙ rw (count-setremove_once eq_refl same v w xs held h) (collapse (eq w v))
      where
        collapse :
            (b : Bool)
            → (if b then (if add then 1 else 0) else (if b then 0 else count eq w xs))
              ≡ (if b then (if add then 1 else 0) else count eq w xs)
        collapse true = refl
        collapse false = refl

-- How often a list of numbers holds a number.
abbrev pub contained : ℤ → List ℤ → ℕ
contained = count eqb_ℤ

abbrev pub one_if : Bool → ℕ
one_if b = if b then 1 else 0
