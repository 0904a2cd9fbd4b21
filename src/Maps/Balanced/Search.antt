-- ===== src/Maps/Balanced/Search.antt =====
-- The search of an insertion ends, in a tree that keeps the rules.
use stunt.Prelude.{
  ℕ, zero, suc, ◌+◌, ◌*◌, ◌-◌, ◌≤◌, ◌≡◌, refl, Bool, true, false, ◌&&◌, some, List, [], ◌∷◌, arith,
  Bool-cases, inl, inr,
}
use stunt.Prelude.Int.{ℤ}
use stunt.Value.{Var, Node, leaf, node}
use stunt.Maps.{is_red, Frame, blacken, flip, top_red, goes_right, is_same, Place, repair, current}
use stunt.Maps.Shape.{HasHeight, HasColours, IsPlaced, flip-IsPlaced}
use stunt.Maps.Balanced.{
  Quiet, Sibling, Uncle, bonus, Directed, way, Ready, next, above, Goes, IsMended,
}
use stunt.Maps.Balanced.Turns.{Quiet-black, Quiet-next, rotate-IsMended}

module _ (cmp : Var → Var → ℤ) (key value : Var) where
  pub Sibling-next :
      (right red : Bool) (k v : Var) (l r : Node) (path : List Frame)
      → (is_red l && is_red r) ≡ false
      → Sibling (above cmp key right red k v l r ∷ path) (next cmp key right l r)
  unfolding Sibling
  Sibling-next true red k v l r path e = ground (arith, e)
  Sibling-next false red k v l r path e = e

  pub Uncle-above :
      (right red : Bool) (k v : Var) (l r : Node) (path : List Frame)
      → Sibling path (node red k v l r)
      → Uncle (above cmp key right red k v l r ∷ path)
  unfolding Sibling Uncle
  Uncle-above right red k v l r [] s = s
  Uncle-above right red k v l r (g ∷ path) s = s

  Quiet-Sibling : (path : List Frame) (q : Node) → Quiet q → Sibling path q
  unfolding Sibling
  Quiet-Sibling [] q h = Quiet-black cmp key q h
  Quiet-Sibling (g ∷ path) q h = rw (Quiet-black cmp key q h) refl

  pub way-node :
      (red : Bool) (k v : Var) (l r : Node)
      → way cmp key (node red k v l r) ≡ suc (way cmp key (next cmp key (goes_right cmp key k) l r))
  unfolding way
  way-node red k v l r = elim (Bool-cases (goes_right cmp key k)) [
    | inl e ↦ rw e refl
    | inr e ↦ rw e refl
  ]

  -- At a node without two red links, where there is no violation, the search goes on.
  pub plain-IsMended :
      (n : ℕ) (path : List Frame) (red : Bool) (k v : Var) (l r : Node) (stale : ℕ)
      → IsPlaced n path (node red k v l r)
      → Directed cmp key path
      → (is_red l && is_red r) ≡ false
      → (red && top_red path) ≡ false
      → Ready cmp key
          (stale - 1)
          (above cmp key (goes_right cmp key k) red k v l r ∷ path)
          (next cmp key (goes_right cmp key k) l r)
      → bonus (stale - 1) ≤ bonus stale + 1
      → (place : Place) × (repair path (current key value (node red k v l r)) stale ≡ some place)
        × IsMended cmp key (2 * way cmp key (node red k v l r) + bonus stale) place
  unfolding Goes
  plain-IsMended n path red k v l r stale i d both calm ready le = (
    record { path = path; focus = node red k v l r; stale = stale },
    rw (both, calm) refl,
    record {
      level = n;
      placed = i;
      directed = d;
      goes = inr (ready, omega (arith, way-node red k v l r));
    },
  )

  -- The links of a node after a color flip are quiet, and the way down is as long as before.
  Quiet-blacken : (red : Bool) (q : Node) → is_red q ≡ true → HasColours q → Quiet (blacken q)
  unfolding Quiet HasColours
  Quiet-blacken red leaf e c = cc
  Quiet-blacken red (node true k v l r) e (both, cl, cr) = (refl, ground arith)
  Quiet-blacken red (node false k v l r) e c = cc

  way-blacken : (q : Node) → way cmp key (blacken q) ≡ way cmp key q
  unfolding way
  way-blacken leaf = refl
  way-blacken (node red k v l r) = refl

  way-next :
      (right : Bool) (l r : Node)
      → way cmp key (next cmp key right (blacken l) (blacken r))
        ≡ way cmp key (next cmp key right l r)
  way-next true l r = way-blacken r
  way-next false l r = way-blacken l

  -- A node with two red links is black; it is flipped, and mended if its parent is red.
  pub flipped-IsMended :
      (n : ℕ) (path : List Frame) (k v : Var) (l r : Node)
      → IsPlaced n path (node false k v l r)
      → Directed cmp key path
      → Uncle path
      → is_red l ≡ true
      → is_red r ≡ true
      → (place : Place) × (repair path (current key value (node false k v l r)) 0 ≡ some place)
        × IsMended cmp key (2 * way cmp key (node false k v l r) + 1) place
  unfolding Goes Ready HasColours
  flipped-IsMended n path k v l r i d uncle el er =
      let (h, c) = flip-IsPlaced n k v l r el er i.height i.colours in
      let (_, cl, cr) = i.colours in
      let ql = Quiet-blacken false l el cl in
      let qr = Quiet-blacken false r er cr in
      let same = way-next (goes_right cmp key k) l r in
      let whole = way-node false k v l r in
      elim (Bool-cases (top_red path)) [
        | inr black ↦ (
          record { path = path; focus = flip (node false k v l r); stale = 0 },
          rw (el, er, black) refl,
          record {
            level = n;
            placed = record { fits = i.fits; height = h; colours = c; top = rw black refl };
            directed = d;
            goes = inr (
              inl (Quiet-next cmp key (goes_right cmp key k) (blacken l) (blacken r) ql qr),
              omega arith,
            );
          },
        )
        | inl red ↦
            let (place, e, m) =
              rotate-IsMended cmp key (2 * way cmp key (node false k v l r) + 1) n path k v
                (blacken l) (blacken r) i.fits red uncle h c d (inr (ql, qr, omega arith)) in
            (place, rw (el, er, red) e, m)
      ]

  pub new-IsMended :
      (w n : ℕ) (path : List Frame)
      → IsPlaced n path leaf
      → Directed cmp key path
      → Uncle path
      → is_same cmp key key ≡ true
      → (place : Place) × (repair path (current key value leaf) 0 ≡ some place)
        × IsMended cmp key w place
  unfolding Goes HasHeight HasColours
  new-IsMended w n path i d uncle same = elim (Bool-cases (top_red path)) [
    | inr black ↦ (
      record { path = path; focus = node true key value leaf leaf; stale = 0 },
      rw black refl,
      record {
        level = n;
        placed = record {
          fits = i.fits;
          height = (i.height, i.height);
          colours = (refl, tt, tt);
          top = rw black refl;
        };
        directed = d;
        goes = inl same;
      },
    )
    | inl red ↦
        let (place, e, m) =
          rotate-IsMended cmp key w n path key value leaf leaf i.fits red uncle (i.height, i.height)
            (refl, tt, tt) d (inl same) in
        (place, rw red e, m)
  ]

  pub Quiet-IsMended :
      (n : ℕ) (path : List Frame) (q : Node) (stale : ℕ)
      → IsPlaced n path q
      → Directed cmp key path
      → Quiet q
      → stale ≤ 1
      → (place : Place) × (repair path (current key value q) stale ≡ some place)
        × IsMended cmp key (2 * way cmp key q + bonus stale) place
  unfolding Quiet Ready
  Quiet-IsMended n path leaf stale i d quiet le = absurd quiet
  Quiet-IsMended n path (node red k v l r) zero i d (black, both) le =
      plain-IsMended n path red k v l r zero i d both (rw black refl)
        (inr (
          Sibling-next (goes_right cmp key k) red k v l r path both,
          Uncle-above (goes_right cmp key k) red k v l r path
              (Quiet-Sibling path (node red k v l r) (black, both)),
        ))
        (omega arith)
  Quiet-IsMended n path (node red k v l r) (suc zero) i d (black, both) le =
      plain-IsMended n path red k v l r 1 i d both (rw black refl)
        (inr (
          Sibling-next (goes_right cmp key k) red k v l r path both,
          Uncle-above (goes_right cmp key k) red k v l r path
              (Quiet-Sibling path (node red k v l r) (black, both)),
        ))
        (omega arith)
  Quiet-IsMended n path (node red k v l r) (suc (suc m)) i d quiet le = absurd (omega arith)
