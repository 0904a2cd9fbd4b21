-- ===== src/Maps/Balanced.antt =====
-- What the search of an insertion keeps while it goes down, so that the helpers of a rotation are the
-- nodes right above the current one whenever a rotation is made.
pub mod Turns
pub mod Search
pub mod Ends
use stunt.Prelude.{
  ℕ, zero, suc, ◌+◌, ◌*◌, ◌-◌, ◌≤◌, ◌<◌, ◌≡◌, refl, sym, ap, subst, ◌∙◌, Bool, true, false, ◌&&◌,
  ◌||◌, not, Option, List, [], ◌∷◌, arith, if◌then◌else◌, Bool-cases, inl, inr, ◌⊎◌,
}
use stunt.Prelude.Int.{ℤ, pos, ltb_ℤ, eqb_ℤ}
use stunt.Value.{Var, Node, leaf, node}
use stunt.Maps.{is_red, Frame, top_red, goes_right, is_same, Place}
use stunt.Maps.Shape.{IsPlaced}

-- A black node without two red links: neither a flip nor a rotation happens at it.
unfoldable pub Quiet : Node → Type 0
Quiet leaf = ⊥
Quiet (node red k v l r) = (red ≡ false) × ((is_red l && is_red r) ≡ false)

-- A red current node has no red sibling, since there was no flip at the parent; the root is black.
unfoldable pub Sibling : List Frame → Node → Type 0
Sibling [] q = is_red q ≡ false
Sibling (g ∷ path) q = (is_red q && is_red g.other) ≡ false

-- The same of the parent.
unfoldable pub Uncle : List Frame → Type 0
Uncle [] = Unit {0}
Uncle (p ∷ []) = p.red ≡ false
Uncle (p ∷ g ∷ path) = (p.red && is_red g.other) ≡ false

abbrev pub bonus : ℕ → ℕ
bonus zero = 1
bonus (suc n) = 0

module _ (cmp : Var → Var → ℤ) (key : Var) where
  -- The directions on the path are those of the key.
  unfoldable pub Directed : List Frame → Type 0
  Directed [] = Unit {0}
  Directed (f ∷ path) = (f.dir ≡ goes_right cmp key f.key) × Directed path

  -- The number of nodes on the way down.
  unfoldable pub way : Node → ℕ
  way leaf = 0
  way (node red k v l r) =
      let right = way r in let left = way l in if goes_right cmp key k then suc right else suc left

  -- After a double rotation the next node is one of those that went down, and what comes after it is
  -- quiet.
  unfoldable pub Calm : Node → Type 0
  Calm leaf = ⊥
  Calm (node red k v l r) =
      ((is_red l && is_red r) ≡ false) × Quiet (if goes_right cmp key k then r else l)

  unfoldable pub Ready : ℕ → List Frame → Node → Type 0
  Ready zero path q = Quiet q ⊎ (Sibling path q × Uncle path)
  Ready (suc zero) path q = Quiet q
  Ready (suc (suc n)) path q = (n ≡ 0) × (top_red path ≡ false) × Calm q

  -- The next node, and the node above it.
  abbrev pub next : Bool → Node → Node → Node
  next right l r = if right then r else l

  abbrev pub above : Bool → Bool → Var → Var → Node → Node → Frame
  above right red k v l r = record {
    dir = right;
    red = red;
    key = k;
    value = v;
    other = if right then l else r;
  }

  -- The search ends at the place, or what comes next is ready and closer to the end.
  unfoldable pub Goes : ℕ → List Frame → Node → ℕ → Type 0
  Goes w path leaf stale = ⊥
  Goes w path (node red k v l r) stale =
      (is_same cmp key k ≡ true)
      ⊎ (Ready (stale - 1) (above (goes_right cmp key k) red k v l r ∷ path)
            (next (goes_right cmp key k) l r)
          × (2 * way (next (goes_right cmp key k) l r) + bonus (stale - 1) < w))

  pub record IsMended (w : ℕ) (place : Place) : Type 0 where
    pub level : ℕ
    pub placed : IsPlaced level place.path place.focus
    pub directed : Directed place.path
    pub goes : Goes w place.path place.focus place.stale
