-- ===== src/Database/Parents/Duplicates.antt =====
-- What the check for duplicates finds, and what it misses.
use stunt.Prelude.{
  some_eq, ℕ, zero, suc, ◌+◌, ◌≤◌, ◌≡◌, refl, ap, sym, subst, ◌-◌, ◌∙◌, Bool, true, false, Option,
  arith,
}
use mathlib.Core.Option.{some}
use stunt.Value.{Floats, Var, Items, list, nil, cons}
use stunt.Value.Equality.{equality}
use stunt.Database.Parents.{skip, any_equal, all_single, check_for_duplicates}

-- An element of a list, from index 1.
abbrev pub item : Items → ℕ → Option Var
item nil i = Option.none
item (cons v xs) zero = Option.none
item (cons v xs) (suc zero) = some v
item (cons v xs) (suc (suc i)) = item xs (suc i)

item-skip : (n k m : ℕ) (xs : Items) → m ≡ n + k → item (skip n xs) (suc k) ≡ item xs (suc m)
item-skip zero k m xs h = ap (λ a. item xs (suc a)) (omega arith)
item-skip (suc n) k m nil h = refl
item-skip (suc n) k zero (cons v xs) h = absurd (omega arith)
item-skip (suc n) k (suc m) (cons v xs) h = item-skip n k m xs (omega arith)

module _ (f : Floats) where
  any_equal_nil : (v : Var) → any_equal f v nil ≡ some false
  unfolding any_equal
  any_equal_nil v = refl

  any_equal_skips :
      (v w : Var) (xs : Items)
      → equality f true v w ≡ some false
      → any_equal f v (cons w xs) ≡ any_equal f v xs
  unfolding any_equal
  any_equal_skips v w xs h = rw (h, any_equal)

  -- What an element has passed that the inner loop has passed.
  passed :
      (r : Option Bool) (rest : Option Bool)
      → (elim r as (λ y. Option Bool) [
        | Option.none ↦ Option.none
        | some true ↦ some true
        | some false ↦ rest
      ])
        ≡ some false
      → (r ≡ some false) × (rest ≡ some false)
  passed Option.none rest h = cc
  passed (some true) rest h = absurd (ground arith)
  passed (some false) rest h = (refl, h)

  went_on :
      (r : Option Bool) (rest : Option Bool)
      → (elim r as (λ y. Option Bool) [
        | Option.none ↦ Option.none
        | some true ↦ some false
        | some false ↦ rest
      ])
        ≡ some true
      → (r ≡ some false) × (rest ≡ some true)
  went_on Option.none rest h = cc
  went_on (some true) rest h = absurd (ground arith)
  went_on (some false) rest h = (refl, h)

  any_equal-item :
      (v w : Var) (k : ℕ) (xs : Items)
      → any_equal f v xs ≡ some false
      → item xs (suc k) ≡ some w
      → equality f true v w ≡ some false
  unfolding any_equal
  any_equal-item v w k nil h e = cc
  any_equal-item v w zero (cons x xs) h e =
      ap (λ t. equality f true v t) (sym (some_eq e))
      ∙ (passed (equality f true v x) (any_equal f v xs) h).0
  any_equal-item v w (suc k) (cons x xs) h e =
      any_equal-item v w k xs (passed (equality f true v x) (any_equal f v xs) h).1 e

  all_single-item :
      (i : ℕ) (xs : Items) (a b : ℕ) (v w : Var)
      → all_single f (suc i) xs ≡ some true
      → item xs (suc a) ≡ some v
      → item xs (suc b) ≡ some w
      → suc i + a + a ≤ b
      → equality f true v w ≡ some false
  unfolding all_single
  all_single-item i nil a b v w h e e' le = cc
  all_single-item i (cons x xs) zero b v w h e e' le =
      let inner =
        (went_on (any_equal f x (skip (suc i) (cons x xs))) (all_single f (suc i + 1) xs) h).0 in
      any_equal-item v w (b - suc i) (skip (suc i) (cons x xs))
        (subst (λ t. any_equal f t (skip (suc i) (cons x xs)) ≡ some false) (some_eq e) inner)
        (item-skip (suc i) (b - suc i) b (cons x xs) (omega arith) ∙ e')
  all_single-item i (cons x xs) (suc a) zero v w h e e' le = absurd (omega arith)
  all_single-item i (cons x xs) (suc a) (suc b) v w h e e' le =
      all_single-item (suc i) xs a b v w
        (subst (λ (t : ℕ). all_single f t xs ≡ some true) (omega arith)
          (went_on (any_equal f x (skip (suc i) (cons x xs))) (all_single f (suc i + 1) xs) h).1)
        e e' (omega arith)

-- What the check is sure of: if it accepts a list, then the elements at the indices i and j are not
-- equal, for every i from 1 on and every j that is at least i + i.
pub check_for_duplicates-item :
    (f : Floats) (xs : Items) (i j : ℕ) (v w : Var)
    → check_for_duplicates f (list xs) ≡ some true
    → 1 ≤ i
    → i + i ≤ j
    → item xs i ≡ some v
    → item xs j ≡ some w
    → equality f true v w ≡ some false
unfolding check_for_duplicates
check_for_duplicates-item f xs zero j v w h one far e e' = absurd (omega arith)
check_for_duplicates-item f xs (suc a) zero v w h one far e e' = absurd (omega arith)
check_for_duplicates-item f xs (suc a) (suc b) v w h one far e e' =
    all_single-item f zero xs a b v w h e e' (omega arith)

-- A list whose second element stands in it twice is accepted, if the first element is another one:
-- the inner loop begins at i + i and compares the second element with the fourth at the earliest.
pub check_for_duplicates_misses :
    (f : Floats) (x y : Var)
    → equality f true x y ≡ some false
    → check_for_duplicates f (list (cons x (cons y (cons y nil)))) ≡ some true
unfolding check_for_duplicates all_single
check_for_duplicates_misses f x y h =
    let first : any_equal f x (cons y (cons y nil)) ≡ some false =
      any_equal_skips f x y (cons y nil) h ∙ any_equal_skips f x y nil h ∙ any_equal_nil f x in
    rw (check_for_duplicates, all_single, first, any_equal_nil f y, any_equal_nil f y)
