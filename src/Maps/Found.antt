-- ===== src/Maps/Found.antt =====
-- What an insertion does to a map, and that the search finds what was inserted.
use stunt.Prelude.{
  suc, ◌≡◌, refl, sym, ap, subst, ◌∙◌, true, false, some, List, [], ◌∷◌, ◌++◌, arith, Bool-cases,
  inl, inr, ◌⊎◌,
}
use mathlib.Core.List.{append-nil}
use stunt.Prelude.Int.{ℤ}
use stunt.Value.{Var, Node, leaf, node}
use stunt.Maps.{is_red, blacken, goes_right, is_same, rbfind, rbinsert}
use stunt.Maps.Shape.{HasHeight, HasColours, blacken-HasHeight, blacken-HasColours, is_red-blacken}
use stunt.Maps.Balanced.Ends.{Balanced, descend-root}
use stunt.Maps.Order.{Item, item, items, befores, afters}
use stunt.Maps.Splits.{
  Each, Each-append, Each-middle, head_eq, tail_eq, IsBelow, IsNotBelow, IsAbove, IsNotBelow-high,
  split_below, split_above,
}
use stunt.Maps.Inserted.{IsBetween, descend-items}

module _ (cmp : Var → Var → ℤ) (key : Var) where
  no_middle : (low : List Item) (x : Item) (high : List Item) → [] ≡ low ++ (x ∷ high) → ⊥
  no_middle [] x high e = cc
  no_middle (y ∷ low) x high e = cc

  no_or_some : (xs : List Item) → (xs ≡ []) ⊎ ((y : Item) × (ys : List Item) × (xs ≡ y ∷ ys))
  no_or_some [] = inl refl
  no_or_some (y ∷ ys) = inr (y, ys, refl)

  rbfind-items :
      (t : Node) (low : List Item) (x : Item) (high : List Item)
      → items t ≡ low ++ (x ∷ high)
      → Each (IsBelow cmp key) low
      → Each (IsAbove cmp key) high
      → is_same cmp key x.key ≡ true
      → rbfind cmp key t ≡ some x.value
  unfolding rbfind items Each IsBelow IsAbove IsNotBelow
  rbfind-items leaf low x high e below above same = absurd (no_middle low x high e)
  rbfind-items (node red k v l r) low x high e below above same =
      elim (Bool-cases (goes_right cmp key k)) [
        | inl right ↦
            let straight : goes_right cmp key x.key ≡ false = ground arith in
            let (more, e1, e2) =
              split_below cmp key (items l) (item k v) (items r) low (x ∷ high) e
                (straight, IsNotBelow-high cmp key high above) right in
            let other : is_same cmp key k ≡ false = ground arith in
            rw (other, right)
              (rbfind-items r more x high e2
                (Each-append (IsBelow cmp key) (items l) (item k v ∷ more)
                  (subst (Each (IsBelow cmp key)) e1 below)).1.1
                above same)
        | inr left ↦
            let (more, e1, e2) =
              split_above cmp key (items l) (item k v) (items r) low (x ∷ high) e below left in
            elim (no_or_some more) [
              | inl none_left ↦
                  let e3 : x ∷ high ≡ item k v ∷ items r = rw none_left at e1 in
                  let this = head_eq x (item k v) high (items r) e3 in
                  let found : is_same cmp key k ≡ true =
                    subst (λ (i : Item). is_same cmp key i.key ≡ true) this same in
                  rw found (ap (λ (i : Item). some i.value) (sym this))
              | inr (y, ys, split) ↦
                  let e3 : x ∷ high ≡ y ∷ (ys ++ (item k v ∷ items r)) = rw split at e1 in
                  let rest = tail_eq x y high (ys ++ (item k v ∷ items r)) e3 in
                  let above' = subst (Each (IsAbove cmp key)) rest above in
                  let (other, _) = Each-middle (IsAbove cmp key) ys (item k v) (items r) above' in
                  let e4 : items l ≡ low ++ (x ∷ ys) =
                    rw (head_eq x y high (ys ++ (item k v ∷ items r)) e3, ← split) e2 in
                  rw (other, left)
                    (rbfind-items l low x ys e4 below
                      (Each-append (IsAbove cmp key) ys (item k v ∷ items r) above').0 same)
            ]
      ]

-- A tree that keeps the rules, with a black root.
pub record IsTree (t : Node) : Type 0 where
  pub root : is_red t ≡ false
  pub balanced : Balanced t

blacken-IsTree : (t : Node) → Balanced t → IsTree (blacken t)
unfolding Balanced
blacken-IsTree t (m, h, c) = elim (Bool-cases (is_red t)) [
  | inl red ↦ record {
    root = is_red-blacken t;
    balanced = (suc m, blacken-HasHeight m t red h, blacken-HasColours t c);
  }
  | inr black ↦ record {
    root = is_red-blacken t;
    balanced = (m, subst (HasHeight m) (sym (same t black)) h, blacken-HasColours t c);
  }
]
  where
    same : (t : Node) → is_red t ≡ false → blacken t ≡ t
    same leaf e = refl
    same (node true k v l r) e = cc
    same (node false k v l r) e = refl

items-blacken : (t : Node) → items (blacken t) ≡ items t
unfolding items
items-blacken leaf = refl
items-blacken (node red k v l r) = refl

between_none : (x : Item) (low high : List Item) → [] ≡ low ++ high → x ∷ [] ≡ low ++ (x ∷ high)
between_none x [] [] e = refl
between_none x [] (y ∷ high) e = cc
between_none x (y ∷ low) high e = cc

-- What an insertion answers.
pub record IsInserted (cmp : Var → Var → ℤ) (key value : Var) (t : Node) (low high : List Item)
    : Type 0 where
  pub tree : Node
  pub answer : rbinsert cmp key value t ≡ some tree
  pub is_tree : IsTree tree
  pub in_order : items tree ≡ low ++ (item key value ∷ high)
  pub finds : rbfind cmp key tree ≡ some value

-- In a red-black tree with a black root, whose items from left to right are some whose keys compare
-- below a key, and then some whose keys compare above it, rbinsert of this key and a value ends, and
-- never rotates nodes other than the current one's parent and grandparent; it answers with a red-black
-- tree with a black root, whose items are the same with the new one between the two parts, and in which
-- rbfind finds the value. The comparison is any one under which the key is equal to itself.
pub rbinsert-IsInserted :
    (cmp : Var → Var → ℤ) (key value : Var) (t : Node) (low high : List Item)
    → IsTree t
    → items t ≡ low ++ high
    → Each (IsBelow cmp key) low
    → Each (IsAbove cmp key) high
    → is_same cmp key key ≡ true
    → IsInserted cmp key value t low high
unfolding rbinsert rbfind items befores afters Balanced HasHeight HasColours
rbinsert-IsInserted cmp key value leaf low high i e below above same = record {
  tree = node false key value leaf leaf;
  answer = refl;
  is_tree = record { root = refl; balanced = (1, (refl, refl), (refl, tt, tt)) };
  in_order = between_none (item key value) low high e;
  finds = rw same refl;
}
rbinsert-IsInserted cmp key value (node true k v l r) low high i e below above same =
    absurd (ground (arith, i.root))
rbinsert-IsInserted cmp key value (node false k v l r) low high i e below above same =
    let (n, h, c) = i.balanced in
    let (t, d, b) = descend-root cmp key value n k v l r h c same in
    let between : IsBetween cmp key value [] (node false k v l r) low high = record {
      first = low;
      second = high;
      inside = e;
      lows = refl;
      highs = sym (append-nil high);
    } in
    let sorted =
      items-blacken t
      ∙ descend-items cmp key value _ [] (node false k v l r) 0 t low high between below above same
          d in
    record {
      tree = blacken t;
      answer = rw (d, rbinsert) refl;
      is_tree = blacken-IsTree t b;
      in_order = sorted;
      finds = rbfind-items cmp key (blacken t) low (item key value) high sorted below above same;
    }
