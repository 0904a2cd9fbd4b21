-- ===== src/Timers/Order.antt =====
-- The list of timers: lookup by number, order by time.
use stunt.Prelude.{
  ℕ, ◌≤◌, ◌≡◌, refl, subst, ◌∙◌, false, Option, none, some, List, [], ◌∷◌, arith, leb, leb→le,
  if◌then◌else◌, Bool-cases, inl, inr, ◌⊎◌,
}
use stunt.Prelude.Int.{ℤ, eqb_ℤ, eqb_eq, eqb_refl}
use stunt.Timers.{Timer, insert, remove}

-- The timer with a number, however the list is ordered.
unfoldable pub lookup : ℤ → List Timer → Option Timer
lookup id [] = none
lookup id (t ∷ ts) = let later = lookup id ts in if eqb_ℤ t.id id then some t else later

-- No two timers have the same number.
unfoldable pub Distinct : List Timer → Type 0
Distinct [] = Unit {0}
Distinct (t ∷ ts) = (lookup t.id ts ≡ none) × Distinct ts

-- The first timers are due first.
unfoldable pub Later : ℕ → List Timer → Type 0
Later when [] = Unit {0}
Later when (t ∷ ts) = (when ≤ t.when) × Later when ts

unfoldable pub Sorted : List Timer → Type 0
Sorted [] = Unit {0}
Sorted (t ∷ ts) = Later t.when ts × Sorted ts

eqb_sym : (a b : ℤ) → eqb_ℤ a b ≡ eqb_ℤ b a
eqb_sym a b = ground arith

pub lookup-insert :
    (t : Timer) (us : List Timer) (id : ℤ)
    → lookup t.id us ≡ none
    → lookup id (insert t us) ≡ (if eqb_ℤ t.id id then some t else lookup id us)
unfolding lookup insert
lookup-insert t [] id fresh = refl
lookup-insert t (u ∷ us) id fresh = elim (Bool-cases (leb u.when t.when)) [
  | inr before ↦ rw before refl
  | inl after ↦ elim (Bool-cases (eqb_ℤ u.id t.id)) [
    | inl same ↦ absurd (ground (arith, rw same at fresh))
    | inr other ↦ elim (Bool-cases (eqb_ℤ u.id id)) [
      | inl this ↦
          let not_new : eqb_ℤ t.id id ≡ false =
            ground (arith, eqb_eq u.id id this, eqb_sym t.id u.id) in
          rw (after, this, not_new) refl
      | inr that ↦ rw (after, that) (lookup-insert t us id (rw other at fresh))
    ]
  ]
]

pub insert-Distinct :
    (t : Timer) (us : List Timer) → lookup t.id us ≡ none → Distinct us → Distinct (insert t us)
unfolding Distinct lookup insert
insert-Distinct t [] fresh d = (refl, tt)
insert-Distinct t (u ∷ us) fresh (new, d) = elim (Bool-cases (leb u.when t.when)) [
  | inr before ↦ rw before (fresh, (new, d))
  | inl after ↦ elim (Bool-cases (eqb_ℤ u.id t.id)) [
    | inl same ↦ absurd (ground (arith, rw same at fresh))
    | inr other ↦
        let fresh' : lookup t.id us ≡ none = rw other at fresh in
        let apart : eqb_ℤ t.id u.id ≡ false = eqb_sym t.id u.id ∙ other in
        rw after (lookup-insert t us u.id fresh' ∙ rw apart new, insert-Distinct t us fresh' d)
  ]
]

Later-insert :
    (when : ℕ) (t : Timer) (us : List Timer)
    → when ≤ t.when
    → Later when us
    → Later when (insert t us)
unfolding Later insert
Later-insert when t [] h l = (h, tt)
Later-insert when t (u ∷ us) h (first, l) = elim (Bool-cases (leb u.when t.when)) [
  | inr before ↦ rw before (h, (first, l))
  | inl after ↦ rw after (first, Later-insert when t us h l)
]

Later-le : (a b : ℕ) (us : List Timer) → a ≤ b → Later b us → Later a us
unfolding Later
Later-le a b [] h l = tt
Later-le a b (u ∷ us) h (first, l) = (omega arith, Later-le a b us h l)

pub insert-Sorted : (t : Timer) (us : List Timer) → Sorted us → Sorted (insert t us)
unfolding Sorted Later insert
insert-Sorted t [] s = (tt, tt)
insert-Sorted t (u ∷ us) (l, s) = elim (Bool-cases (leb u.when t.when)) [
  | inr before ↦
      let le : t.when ≤ u.when = ground arith in
      rw before ((le, Later-le t.when u.when us le l), (l, s))
  | inl after ↦
      rw after (Later-insert u.when t us (leb→le u.when t.when after) l, insert-Sorted t us s)
]

-- What is left of the list without the timer `id`.
pub record IsWithout (id : ℤ) (ts us : List Timer) : Type 0 where
  pub was : (t : Timer) × (lookup id ts ≡ some t)
  pub others : (j : ℤ) → lookup j us ≡ (if eqb_ℤ id j then none else lookup j ts)
  pub distinct : Distinct us
  pub sorted : Sorted us
  pub later : (when : ℕ) → Later when ts → Later when us

IsWithout-cons :
    (id : ℤ) (t : Timer) (ts us : List Timer)
    → eqb_ℤ t.id id ≡ false
    → Distinct (t ∷ ts)
    → Sorted (t ∷ ts)
    → IsWithout id ts us
    → IsWithout id (t ∷ ts) (t ∷ us)
unfolding lookup Distinct Sorted Later
IsWithout-cons id t ts us other (new, d) (l, s) w = record {
  was = (w.was.0, rw other w.was.1);
  others = λ j. still j;
  distinct = (w.others t.id ∙ rw (eqb_sym id t.id, other) new, w.distinct);
  sorted = (w.later t.when l, w.sorted);
  later = λ when (first, rest). (first, w.later when rest);
}
  where
    still : (j : ℤ) → lookup j (t ∷ us) ≡ (if eqb_ℤ id j then none else lookup j (t ∷ ts))
    still j = elim (Bool-cases (eqb_ℤ t.id j)) [
      | inl this ↦
          let apart : eqb_ℤ id j ≡ false = ground (arith, eqb_eq t.id j this, eqb_sym t.id id) in
          rw (this, apart) refl
      | inr that ↦ rw that (w.others j)
    ]

pub first-IsWithout :
    (t : Timer) (ts : List Timer) → Distinct (t ∷ ts) → Sorted (t ∷ ts) → IsWithout t.id (t ∷ ts) ts
unfolding lookup Distinct Sorted Later
first-IsWithout t ts (new, d) (l, s) = record {
  was = (t, rw (eqb_refl t.id) refl);
  others = λ j. rest j;
  distinct = d;
  sorted = s;
  later = λ when (first, more). more;
}
  where
    rest : (j : ℤ) → lookup j ts ≡ (if eqb_ℤ t.id j then none else lookup j (t ∷ ts))
    rest j = elim (Bool-cases (eqb_ℤ t.id j)) [
      | inl this ↦ rw this (subst (λ i. lookup i ts ≡ none) (eqb_eq t.id j this) new)
      | inr that ↦ rw that refl
    ]

-- The loop of cancel_timer takes away the timer, if there is one.
pub remove-IsWithout :
    (id : ℤ) (ts : List Timer)
    → Distinct ts
    → Sorted ts
    → ((remove id ts ≡ none) × (lookup id ts ≡ none))
      ⊎ ((us : List Timer) × (remove id ts ≡ some us) × IsWithout id ts us)
unfolding remove lookup Distinct Sorted
remove-IsWithout id [] d s = inl (refl, refl)
remove-IsWithout id (t ∷ ts) d s = elim (Bool-cases (eqb_ℤ t.id id)) [
  | inl this ↦ inr (
    ts,
    rw this refl,
    subst (λ i. IsWithout i (t ∷ ts) ts) (eqb_eq t.id id this) (first-IsWithout t ts d s),
  )
  | inr that ↦ elim (remove-IsWithout id ts d.1 s.1) [
    | inl (e, absent) ↦ inl (rw (that, e) refl, rw that absent)
    | inr (us, e, w) ↦ inr (t ∷ us, rw (that, e) refl, IsWithout-cons id t ts us that d s w)
  ]
]
