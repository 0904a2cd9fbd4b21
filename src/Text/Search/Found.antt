-- ===== src/Text/Search/Found.antt =====
-- `strindex` finds the first place, `strrindex` the last one.
use stunt.Prelude.{
  ℕ, zero, suc, ◌+◌, ◌-◌, ◌≤◌, ◌<◌, ◌≡◌, refl, ap, ◌∙◌, Bool, true, false, ◌&&◌, [], ◌∷◌, arith,
  length, drop, leb, ◌==◌, Bool-cases, inl, inr,
}
use stunt.Text.Case.{Text}
use stunt.Text.Search.{matches, strindex_from, strindex, strrindex_from, strrindex}

-- The text `what` stands in the source at `k`, and all of it lies inside.
abbrev pub stands : Bool → Text → Text → ℕ → Bool
stands case_counts what source k =
    leb (k + length what) (length source) && matches case_counts what (drop k source)

-- The first place at which a test holds, from `i` on, is n - 1, or there is none if n is 0.
pub record IsFirst (test : ℕ → Bool) (i n : ℕ) : Type 0 where
  pub absent : n ≡ 0 → (k : ℕ) → test k ≡ false
  pub found :
      (j : ℕ) → n ≡ suc j → (i ≤ j) × (test (j - i) ≡ true) × ((k : ℕ) → k < j - i → test k ≡ false)

-- The last place.
pub record IsLast (test : ℕ → Bool) (n : ℕ) : Type 0 where
  pub absent : n ≡ 0 → (k : ℕ) → test k ≡ false
  pub found : (j : ℕ) → n ≡ suc j → (test j ≡ true) × ((k : ℕ) → j < k → test k ≡ false)

never : (test : ℕ → Bool) (i : ℕ) → ((k : ℕ) → test k ≡ false) → IsFirst test i 0
never test i h = record { absent = λ e. h; found = λ j e. absurd (omega arith) }

here : (test : ℕ → Bool) (i : ℕ) → test 0 ≡ true → IsFirst test i (i + 1)
here test i h = record {
  absent = λ e. absurd (omega arith);
  found = λ j e.
      let at_once : j - i ≡ 0 = omega arith in
      (omega arith, rw at_once h, λ k lt. absurd (omega arith));
}

later_on :
    (test next : ℕ → Bool) (i n : ℕ)
    → test 0 ≡ false
    → ((k : ℕ) → test (suc k) ≡ next k)
    → IsFirst next (i + 1) n
    → IsFirst test i n
later_on test next i n miss shift r = record {
  absent = λ e k. none_at k (r.absent e);
  found = λ j e.
      let (le, hit, before) = r.found j e in
      let one_more : j - i ≡ suc (j - (i + 1)) = omega arith in
      (
        omega arith,
        rw one_more (shift (j - (i + 1)) ∙ hit),
        λ k lt. not_before j k before (omega arith),
      );
}
  where
    none_at : (k : ℕ) → ((k' : ℕ) → next k' ≡ false) → test k ≡ false
    none_at zero h = miss
    none_at (suc k) h = shift k ∙ h k

    not_before :
        (j k : ℕ)
        → ((k' : ℕ) → k' < j - (i + 1) → next k' ≡ false)
        → k < suc (j - (i + 1))
        → test k ≡ false
    not_before j zero h lt = miss
    not_before j (suc k) h lt = shift k ∙ h k (omega arith)

stands-suc :
    (case_counts : Bool) (what s : Text) (c : ℕ) (k : ℕ)
    → stands case_counts what (c ∷ s) (suc k) ≡ stands case_counts what s k
stands-suc case_counts what s c k =
    let e : leb (suc k + length what) (suc (length s)) ≡ leb (k + length what) (length s) =
      ground arith in
    ap (λ b. b && matches case_counts what (drop k s)) e

-- Nothing stands in a source that is too short.
too_short :
    (case_counts : Bool) (what s : Text) (k : ℕ)
    → length s < length what
    → stands case_counts what s k ≡ false
too_short case_counts what s k h =
    let e : leb (k + length what) (length s) ≡ false = ground arith in rw e

strindex_from-IsFirst :
    (case_counts : Bool) (what : Text) (i : ℕ) (s : Text)
    → IsFirst (stands case_counts what s) i (strindex_from case_counts what i s)
unfolding strindex_from
strindex_from-IsFirst case_counts what i [] = elim (Bool-cases (leb (length what) 0)) [
  | inr long ↦ rw long (never _ i (λ k. too_short case_counts what [] k (ground arith)))
  | inl fits ↦ elim (Bool-cases (matches case_counts what [])) [
    | inl hit ↦
        let e : leb (0 + length what) 0 ≡ true = ground arith in
        rw (fits, hit) (here _ i (rw (e, hit)))
    | inr miss ↦ rw (fits, miss) (never _ i (λ k. nowhere k miss))
  ]
]
  where
    nowhere : (k : ℕ) → matches case_counts what [] ≡ false → stands case_counts what [] k ≡ false
    nowhere zero e = rw e (false_right (leb (0 + length what) 0))
      where
        false_right : (b : Bool) → b && false ≡ false
        false_right true = refl
        false_right false = refl
    nowhere (suc k) e = let far : leb (suc k + length what) 0 ≡ false = ground arith in rw far
strindex_from-IsFirst case_counts what i (c ∷ s) =
    elim (Bool-cases (leb (length what) (length s + 1))) [
      | inr long ↦ rw long (never _ i (λ k. too_short case_counts what (c ∷ s) k (ground arith)))
      | inl fits ↦ elim (Bool-cases (matches case_counts what (c ∷ s))) [
        | inl hit ↦
            let e : leb (0 + length what) (suc (length s)) ≡ true = ground arith in
            rw (fits, hit) (here _ i (rw (e, hit)))
        | inr miss ↦
            rw (fits, miss)
              (later_on _ (stands case_counts what s) i _ (rw miss (ground arith))
                (stands-suc case_counts what s c)
                (strindex_from-IsFirst case_counts what (i + 1) s))
      ]
    ]

-- The test at the places below n, from the last one down.
strrindex_from-last :
    (case_counts : Bool) (what source : Text) (n : ℕ)
    → (strrindex_from case_counts what source n ≡ 0
        → (k : ℕ) → k < n
        → matches case_counts what (drop k source) ≡ false)
      × ((j : ℕ)
          → strrindex_from case_counts what source n ≡ suc j
          → (j < n)
            × (matches case_counts what (drop j source) ≡ true)
            × ((k : ℕ) → j < k → k < n → matches case_counts what (drop k source) ≡ false))
unfolding strrindex_from
strrindex_from-last case_counts what source zero =
    (λ e k lt. absurd (omega arith), λ j e. absurd (omega arith))
strrindex_from-last case_counts what source (suc n) =
    let (absent, found) = strrindex_from-last case_counts what source n in
    elim (Bool-cases (matches case_counts what (drop n source))) [
      | inl hit ↦ rw hit (
        (λ e k lt. absurd (omega arith)),
        (λ j e.
            let top : n ≡ j = omega arith in
            (omega arith, rw (← top) hit, λ k lt lt'. absurd (omega arith))),
      )
      | inr miss ↦ rw miss (
        (λ e k lt. below k (absent e) miss lt),
        (λ j e.
            let (lt, hit, after) = found j e in
            (omega arith, hit, λ k gt lt'. below' j k after miss gt lt')),
      )
    ]
  where
    below :
        (k : ℕ)
        → ((k' : ℕ) → k' < n → matches case_counts what (drop k' source) ≡ false)
        → matches case_counts what (drop n source) ≡ false
        → k < suc n
        → matches case_counts what (drop k source) ≡ false
    below k h miss lt = elim (Bool-cases (k == n)) [
      | inl top ↦ let e : k ≡ n = ground arith in rw e miss
      | inr low ↦ h k (ground arith)
    ]

    below' :
        (j k : ℕ)
        → ((k' : ℕ) → j < k' → k' < n → matches case_counts what (drop k' source) ≡ false)
        → matches case_counts what (drop n source) ≡ false
        → j < k
        → k < suc n
        → matches case_counts what (drop k source) ≡ false
    below' j k h miss gt lt = elim (Bool-cases (k == n)) [
      | inl top ↦ let e : k ≡ n = ground arith in rw e miss
      | inr low ↦ h k gt (ground arith)
    ]

-- A place that the loop of `strrindex` looks at, or none of them.
stands_below :
    (case_counts : Bool) (what source : Text) (k : ℕ)
    → (k < length source + 1 - length what → matches case_counts what (drop k source) ≡ false)
    → stands case_counts what source k ≡ false
stands_below case_counts what source k h =
    elim (Bool-cases (leb (k + length what) (length source))) [
      | inl fits ↦ rw (fits, h (ground arith))
      | inr long ↦ rw long
    ]

-- strindex answers 0 if the text stands nowhere in the source, and otherwise the number, counted from
-- 1, of the first place where it stands; strrindex, called with the length of the source, does the
-- same with the last place. Both hold with and without regard to case.
pub strindex-IsFirst :
    (source what : Text) (case_counts : Bool)
    → IsFirst (stands case_counts what source) 0 (strindex source what case_counts)
      × IsLast (stands case_counts what source) (strrindex source (length source) what case_counts)
unfolding strindex strrindex
strindex-IsFirst source what case_counts =
    let (absent, found) =
      strrindex_from-last case_counts what source (length source + 1 - length what) in
    (
      strindex_from-IsFirst case_counts what 0 source,
      record {
        absent = λ e k. stands_below case_counts what source k (absent e k);
        found = λ j e.
            let (lt, hit, after) = found j e in
            let fits : leb (j + length what) (length source) ≡ true = ground arith in
            (rw (fits, hit), λ k gt. stands_below case_counts what source k (after k gt));
      },
    )
