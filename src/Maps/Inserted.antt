-- ===== src/Maps/Inserted.antt =====
-- Where an insertion puts its item, and that the search finds it.
use stunt.Prelude.{
  ℕ, zero, suc, ◌-◌, ◌≡◌, refl, sym, ap, subst, ◌∙◌, Bool, true, false, ◌&&◌, some, some_eq, List,
  [], ◌∷◌, ◌++◌, arith, Bool-cases, Option-cases, inl, inr,
}
use mathlib.Core.List.{append_assoc, append-nil}
use stunt.Prelude.Int.{ℤ}
use stunt.Value.{Var, Node, leaf, node}
use stunt.Maps.{is_red, Frame, blacken, plug, goes_right, is_same, Place, repair, current, descend}
use stunt.Maps.Order.{
  Item, item, items, befores, afters, plug-items, IsMoved, repair-IsMoved, flip-items,
}
use stunt.Maps.Splits.{
  Each, Each-append, Each-middle, IsBelow, IsAbove, IsNotBelow-high, split_below, split_above,
}

module _ (cmp : Var → Var → ℤ) (key value : Var) where
  -- The current node by its fields.
  pub record IsNode (q : Node) (k v : Var) : Type 0 where
    pub red : Bool
    pub l : Node
    pub r : Node
    pub is : current key value q ≡ node red k v l r
    pub same_items : items (node red k v l r) ≡ items q

  current-IsNode : (red : Bool) (k v : Var) (l r : Node) → IsNode (node red k v l r) k v
  current-IsNode red k v l r = elim (Bool-cases (is_red l && is_red r)) [
    | inl both ↦ record {
      red = true;
      l = blacken l;
      r = blacken r;
      is = rw both refl;
      same_items = flip-items k v red l r;
    }
    | inr plain ↦ record { red = red; l = l; r = r; is = rw plain refl; same_items = refl }
  ]

  -- The place lies between the items `low` and `high`.
  pub record IsBetween (path : List Frame) (q : Node) (low high : List Item) : Type 0 where
    pub first : List Item
    pub second : List Item
    pub inside : items q ≡ first ++ second
    pub lows : low ≡ befores path ++ first
    pub highs : high ≡ second ++ afters path

  moved-IsBetween :
      (path : List Frame) (red : Bool) (k v : Var) (l r q : Node) (place : Place)
      (low high : List Item)
      → IsMoved path red k v l r place
      → items (node red k v l r) ≡ items q
      → IsBetween path q low high
      → IsBetween place.path place.focus low high
  moved-IsBetween path red k v l r q place low high m same b = record {
    first = m.taken_left ++ b.first;
    second = b.second ++ m.taken_right;
    inside = m.items_are ∙ rw (same, b.inside) (simp append_assoc refl);
    lows = b.lows ∙ rw m.before (simp append_assoc refl);
    highs = b.highs ∙ rw m.after (simp append_assoc refl);
  }

  right-IsBetween :
      (path : List Frame) (red : Bool) (k v : Var) (l r : Node) (low high : List Item)
      → IsBetween path (node red k v l r) low high
      → Each (IsAbove cmp key) high
      → goes_right cmp key k ≡ true
      → IsBetween
          (record { dir = true; red = red; key = k; value = v; other = l } ∷ path)
          r
          low
          high
  unfolding items befores afters
  right-IsBetween path red k v l r low high b above right =
      let (over, _) =
        Each-append (IsAbove cmp key) b.second (afters path)
          (subst (Each (IsAbove cmp key)) b.highs above) in
      let (more, e1, e2) =
        split_below cmp key (items l) (item k v) (items r) b.first b.second b.inside
          (IsNotBelow-high cmp key b.second over) right in
      record {
        first = more;
        second = b.second;
        inside = e2;
        lows = b.lows ∙ rw e1 (simp append_assoc refl);
        highs = b.highs;
      }

  left-IsBetween :
      (path : List Frame) (red : Bool) (k v : Var) (l r : Node) (low high : List Item)
      → IsBetween path (node red k v l r) low high
      → Each (IsBelow cmp key) low
      → goes_right cmp key k ≡ false
      → IsBetween
          (record { dir = false; red = red; key = k; value = v; other = r } ∷ path)
          l
          low
          high
  unfolding items befores afters
  left-IsBetween path red k v l r low high b below left =
      let (_, under) =
        Each-append (IsBelow cmp key) (befores path) b.first
          (subst (Each (IsBelow cmp key)) b.lows below) in
      let (more, e1, e2) =
        split_above cmp key (items l) (item k v) (items r) b.first b.second b.inside under left in
      record {
        first = b.first;
        second = more;
        inside = e2;
        lows = b.lows ∙ rw (append-nil (befores path)) refl;
        highs = b.highs ∙ rw e1 (simp append_assoc refl);
      }

  -- An item at which the comparison is equal is neither below nor above.
  not_same :
      (path : List Frame) (red : Bool) (k v : Var) (l r : Node) (low high : List Item)
      → IsBetween path (node red k v l r) low high
      → Each (IsBelow cmp key) low
      → Each (IsAbove cmp key) high
      → is_same cmp key k ≡ false
  unfolding items IsBelow IsAbove
  not_same path red k v l r low high b below above = elim (Bool-cases (goes_right cmp key k)) [
    | inl right ↦ ground arith
    | inr left ↦
        let (_, under) =
          Each-append (IsBelow cmp key) (befores path) b.first
            (subst (Each (IsBelow cmp key)) b.lows below) in
        let (over, _) =
          Each-append (IsAbove cmp key) b.second (afters path)
            (subst (Each (IsAbove cmp key)) b.highs above) in
        let (more, e1, e2) =
          split_above cmp key (items l) (item k v) (items r) b.first b.second b.inside under left in
        (Each-middle (IsAbove cmp key) more (item k v) (items r)
          (subst (Each (IsAbove cmp key)) e1 over)).0
  ]

  -- The tree in the end, at the new node.
  ended :
      (place : Place) (path : List Frame) (low high : List Item)
      → IsBetween path leaf low high
      → IsMoved path true key value leaf leaf place
      → items (plug place.path place.focus) ≡ low ++ (item key value ∷ high)
  unfolding items
  ended place path low high b m = nothing_inside b.first b.second b.inside b.lows b.highs
    where
      nothing_inside :
          (first second : List Item)
          → [] ≡ first ++ second
          → low ≡ befores path ++ first
          → high ≡ second ++ afters path
          → items (plug place.path place.focus) ≡ low ++ (item key value ∷ high)
      nothing_inside [] [] e el eh =
          plug-items place.path place.focus
          ∙ rw (m.items_are, el, eh, m.before, m.after) (simp (append_assoc, append-nil) refl)
      nothing_inside (x ∷ first) second e el eh = cc
      nothing_inside [] (x ∷ second) e el eh = cc

  pub descend-items :
      (fuel : ℕ) (path : List Frame) (q : Node) (stale : ℕ) (t : Node) (low high : List Item)
      → IsBetween path q low high
      → Each (IsBelow cmp key) low
      → Each (IsAbove cmp key) high
      → is_same cmp key key ≡ true
      → descend cmp key value fuel path q stale ≡ some t
      → items t ≡ low ++ (item key value ∷ high)
  unfolding descend
  descend-items zero path q stale t low high b below above same e = cc
  descend-items (suc fuel) path leaf stale t low high b below above same e =
      elim (Option-cases (repair path (node true key value leaf leaf) stale)) [
        | inl stuck ↦ absurd (ground (arith, rw (stuck, descend) at e))
        | inr (place, h) ↦
            let m = repair-IsMoved path true key value leaf leaf stale place h in
            let found : plug place.path (node m.red' key value m.l' m.r') ≡ t =
              some_eq (rw (h, m.focus_is, same, descend) at e) in
            ap items (sym (ap (plug place.path) m.focus_is ∙ found)) ∙ ended place path low high b m
      ]
  descend-items (suc fuel) path (node red k v l r) stale t low high b below above same e =
      let c = current-IsNode red k v l r in
      elim (Option-cases (repair path (node c.red k v c.l c.r) stale)) [
        | inl stuck ↦ absurd (ground (arith, rw (c.is, stuck, descend) at e))
        | inr (place, h) ↦
            let m = repair-IsMoved path c.red k v c.l c.r stale place h in
            let b' =
              subst (λ f. IsBetween place.path f low high) m.focus_is
                (moved-IsBetween path c.red k v c.l c.r (node red k v l r) place low high m
                  c.same_items b) in
            let other = not_same place.path m.red' k v m.l' m.r' low high b' below above in
            elim (Bool-cases (goes_right cmp key k)) [
              | inl right ↦
                  descend-items fuel _ m.r' (place.stale - 1) t low high
                    (right-IsBetween place.path m.red' k v m.l' m.r' low high b' above right) below
                    above same (rw (c.is, h, m.focus_is, other, right, descend) at e)
              | inr left ↦
                  descend-items fuel _ m.l' (place.stale - 1) t low high
                    (left-IsBetween place.path m.red' k v m.l' m.r' low high b' below left) below
                    above same (rw (c.is, h, m.focus_is, other, left, descend) at e)
            ]
      ]
