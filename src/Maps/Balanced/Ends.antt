-- ===== src/Maps/Balanced/Ends.antt =====
-- Every round of the search leaves a place to go on from, so the search ends with a tree.
use stunt.Prelude.{
  ℕ, zero, suc, ◌+◌, ◌*◌, ◌-◌, ◌≤◌, ◌<◌, ◌≡◌, refl, sym, Bool, true, false, ◌&&◌, Option, some,
  List, [], arith, Bool-cases, inl, inr,
}
use stunt.Prelude.Int.{ℤ}
use stunt.Value.{Var, Node, leaf, node}
use stunt.Maps.{is_red, Frame, plug, goes_right, is_same, Place, repair, current, descend, height}
use stunt.Maps.Shape.{HasHeight, HasColours, Fits, IsPlaced, plug-IsPlaced, down-IsPlaced}
use stunt.Maps.Balanced.{Sibling, Uncle, bonus, Directed, way, Calm, Ready, Goes, IsMended}
use stunt.Maps.Balanced.Search.{
  Sibling-next, Uncle-above, plain-IsMended, flipped-IsMended, new-IsMended, Quiet-IsMended,
}

-- A tree that keeps the rules.
unfoldable pub Balanced : Node → Type 0
Balanced t = (m : ℕ) × HasHeight m t × HasColours t

module _ (cmp : Var → Var → ℤ) (key value : Var) where
  round-IsMended :
      (n : ℕ) (path : List Frame) (q : Node) (stale : ℕ)
      → IsPlaced n path q
      → Directed cmp key path
      → Ready cmp key stale path q
      → is_same cmp key key ≡ true
      → (place : Place) × (repair path (current key value q) stale ≡ some place)
        × IsMended cmp key (2 * way cmp key q + bonus stale) place
  unfolding Ready Calm HasColours
  round-IsMended n path q zero i d (inl quiet) same =
      Quiet-IsMended cmp key value n path q 0 i d quiet (omega arith)
  round-IsMended n path leaf zero i d (inr (s, u)) same =
      new-IsMended cmp key value _ n path i d u same
  round-IsMended n path (node red k v l r) zero i d (inr (s, u)) same =
      elim (Bool-cases (is_red l && is_red r)) [
        | inr both ↦
            plain-IsMended cmp key value n path red k v l r zero i d both (ground (arith, i.top))
              (inr (
                Sibling-next cmp key value (goes_right cmp key k) red k v l r path both,
                Uncle-above cmp key value (goes_right cmp key k) red k v l r path s,
              ))
              (omega arith)
        | inl both ↦ on_colour red i both
      ]
    where
      on_colour :
          (red : Bool)
          → IsPlaced n path (node red k v l r)
          → (is_red l && is_red r) ≡ true
          → (place : Place) × (repair path (current key value (node red k v l r)) zero ≡ some place)
            × IsMended cmp key (2 * way cmp key (node red k v l r) + 1) place
      on_colour true i both = let (e, _, _) = i.colours in absurd (ground arith)
      on_colour false i both =
          flipped-IsMended cmp key value n path k v l r i d u (ground arith) (ground arith)
  round-IsMended n path q (suc zero) i d quiet same =
      Quiet-IsMended cmp key value n path q 1 i d quiet (omega arith)
  round-IsMended n path leaf (suc (suc m)) i d (e, black, calm) same = absurd calm
  round-IsMended n path (node red k v l r) (suc (suc zero)) i d (e, black, (both, quiet)) same =
      plain-IsMended cmp key value n path red k v l r 2 i d both (ground (arith, black)) quiet
        (omega arith)
  round-IsMended n path (node red k v l r) (suc (suc (suc m))) i d (e, black, calm) same =
      absurd (omega arith)

  Ends : Option Node → Type 0
  Ends o = (t : Node) × (o ≡ some t) × Balanced t

  -- The search with less fuel ends.
  EndsWith : ℕ → Type 0
  EndsWith fuel =
      (n : ℕ) (path : List Frame) (q : Node) (stale : ℕ)
      → IsPlaced n path q
      → Directed cmp key path
      → Ready cmp key stale path q
      → is_same cmp key key ≡ true
      → 2 * way cmp key q + bonus stale < fuel
      → Ends (descend cmp key value fuel path q stale)

  goes-Ends :
      (w fuel : ℕ) (path : List Frame) (q : Node) (stale : ℕ) (path' : List Frame) (focus : Node)
      (stale' : ℕ)
      → repair path (current key value q) stale
        ≡ some (record { path = path'; focus = focus; stale = stale' })
      → IsMended cmp key w (record { path = path'; focus = focus; stale = stale' })
      → w ≤ fuel
      → is_same cmp key key ≡ true
      → EndsWith fuel
      → Ends (descend cmp key value (suc fuel) path q stale)
  unfolding descend Ends EndsWith Goes Directed Balanced
  goes-Ends w fuel path q stale path' leaf stale' e m le same rec = absurd m.goes
  goes-Ends w fuel path q stale path' (node red k v l r) stale' e m le same rec =
      elim (Bool-cases (is_same cmp key k)) [
        | inl found ↦ (
          plug path' (node red k v l r),
          rw (e, found, descend) refl,
          plug-IsPlaced m.level path' (node red k v l r) m.placed,
        )
        | inr other ↦ elim m.goes [
          | inl found ↦ absurd (ground arith)
          | inr (ready, lt) ↦ elim (Bool-cases (goes_right cmp key k)) [
            | inl right ↦
                let (j, i) = down-IsPlaced m.level path' true red k v r l m.placed in
                rw (e, other, right, descend)
                  (rec j _ r (stale' - 1) i (sym right, m.directed) (rw right at ready) same
                    (omega (arith, rw right at lt)))
            | inr left ↦
                let (j, i) = down-IsPlaced m.level path' false red k v l r m.placed in
                rw (e, other, left, descend)
                  (rec j _ l (stale' - 1) i (sym left, m.directed) (rw left at ready) same
                    (omega (arith, rw left at lt)))
          ]
        ]
      ]

  descend-Ends : (fuel : ℕ) → EndsWith fuel
  unfolding EndsWith
  descend-Ends zero n path q stale i d ready same h = absurd (omega arith)
  descend-Ends (suc fuel) n path q stale i d ready same h =
      let (place, e, m) = round-IsMended n path q stale i d ready same in
      goes-Ends (2 * way cmp key q + bonus stale) fuel path q stale place.path place.focus
        place.stale e m (omega arith) same (descend-Ends fuel)

  way-le : (q : Node) → way cmp key q ≤ height q
  unfolding way
  way-le leaf = omega arith
  way-le (node red k v l r) = elim (Bool-cases (goes_right cmp key k)) [
    | inl e ↦ rw e (omega (arith, way-le r))
    | inr e ↦ rw e (omega (arith, way-le l))
  ]

  -- The search from a black root.
  pub descend-root :
      (n : ℕ) (k v : Var) (l r : Node)
      → HasHeight n (node false k v l r)
      → HasColours (node false k v l r)
      → is_same cmp key key ≡ true
      → (t : Node) × (descend cmp key value
            (2 * height (node false k v l r) + 2)
            []
            (node false k v l r)
            0
          ≡ some t)
        × Balanced t
  unfolding Fits Directed Ready Sibling Uncle Ends EndsWith
  descend-root n k v l r h c same =
      descend-Ends (2 * height (node false k v l r) + 2) n [] (node false k v l r) 0
        (record { fits = tt; height = h; colours = c; top = refl }) tt (inr (refl, tt)) same
        (omega (arith, way-le (node false k v l r)))
