-- ===== src/Maps/Splits.antt =====
-- A list of items that is cut in two around a key.
use stunt.Prelude.{◌≡◌, refl, sym, ap, subst, true, false, List, [], ◌∷◌, ◌++◌, arith}
use stunt.Prelude.Int.{ℤ}
use stunt.Value.{Var}
use stunt.Maps.{goes_right, is_same}
use stunt.Maps.Order.{Item}

unfoldable pub Each : (Item → Type 0) → List Item → Type 0
Each P [] = Unit {0}
Each P (x ∷ xs) = P x × Each P xs

pub Each-append :
    (P : Item → Type 0) (xs ys : List Item) → Each P (xs ++ ys) → Each P xs × Each P ys
unfolding Each
Each-append P [] ys h = (tt, h)
Each-append P (x ∷ xs) ys (p, h) = let (a, b) = Each-append P xs ys h in ((p, a), b)

pub Each-middle :
    (P : Item → Type 0) (xs : List Item) (x : Item) (ys : List Item) → Each P (xs ++ (x ∷ ys)) → P x
unfolding Each
Each-middle P [] x ys (p, h) = p
Each-middle P (z ∷ xs) x ys (p, h) = Each-middle P xs x ys h

pub head_eq : (x y : Item) (xs ys : List Item) → x ∷ xs ≡ y ∷ ys → x ≡ y
head_eq x y xs ys e = cc

pub tail_eq : (x y : Item) (xs ys : List Item) → x ∷ xs ≡ y ∷ ys → xs ≡ ys
tail_eq x y xs ys e = cc

module _ (cmp : Var → Var → ℤ) (key : Var) where
  unfoldable pub IsBelow : Item → Type 0
  IsBelow i = goes_right cmp key i.key ≡ true

  unfoldable pub IsNotBelow : Item → Type 0
  IsNotBelow i = goes_right cmp key i.key ≡ false

  unfoldable pub IsAbove : Item → Type 0
  IsAbove i = (is_same cmp key i.key ≡ false) × (goes_right cmp key i.key ≡ false)

  pub IsNotBelow-high : (xs : List Item) → Each IsAbove xs → Each IsNotBelow xs
  unfolding Each IsAbove IsNotBelow
  IsNotBelow-high [] h = tt
  IsNotBelow-high (x ∷ xs) ((same, right), h) = (right, IsNotBelow-high xs h)

  -- An item below the key lies in the first part, one that is not below it in the second.
  pub split_below :
      (xs : List Item) (x : Item) (ys low high : List Item)
      → xs ++ (x ∷ ys) ≡ low ++ high
      → Each IsNotBelow high
      → goes_right cmp key x.key ≡ true
      → (more : List Item) × (low ≡ xs ++ (x ∷ more)) × (ys ≡ more ++ high)
  unfolding IsNotBelow
  split_below xs x ys [] high e above below =
      let wrong = Each-middle IsNotBelow xs x ys (subst (Each IsNotBelow) (sym e) above) in
      absurd (ground arith)
  split_below [] x ys (a ∷ low) high e above below = (
    low,
    ap (λ i. i ∷ low) (sym (head_eq x a ys (low ++ high) e)),
    tail_eq x a ys (low ++ high) e,
  )
  split_below (z ∷ xs) x ys (a ∷ low) high e above below =
      let (more, first, second) = split_below xs x ys low high (tail_eq z a _ _ e) above below in
      (more, rw first (ap (λ i. i ∷ (xs ++ (x ∷ more))) (sym (head_eq z a _ _ e))), second)

  pub split_above :
      (xs : List Item) (x : Item) (ys low high : List Item)
      → xs ++ (x ∷ ys) ≡ low ++ high
      → Each IsBelow low
      → goes_right cmp key x.key ≡ false
      → (more : List Item) × (high ≡ more ++ (x ∷ ys)) × (xs ≡ low ++ more)
  unfolding Each IsBelow
  split_above xs x ys [] high e below above = (xs, sym e, refl)
  split_above [] x ys (a ∷ low) high e (right, below) above =
      let wrong : goes_right cmp key x.key ≡ true =
        subst (λ (i : Item). goes_right cmp key i.key ≡ true) (sym (head_eq x a ys (low ++ high) e))
          right in
      absurd (ground arith)
  split_above (z ∷ xs) x ys (a ∷ low) high e (right, below) above =
      let (more, second, first) = split_above xs x ys low high (tail_eq z a _ _ e) below above in
      (more, second, rw first (ap (λ i. i ∷ (low ++ more)) (head_eq z a _ _ e)))
