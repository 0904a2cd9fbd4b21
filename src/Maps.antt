-- ===== src/Maps.antt =====
-- map.cc: the red-black trees of maps: search and insertion.
pub mod Shape
pub mod Rotations
pub mod Balanced
pub mod Order
pub mod Splits
pub mod Inserted
pub mod Found
pub mod Walk
pub mod Depth
pub mod Examples
use stunt.Prelude.{
  ℕ, zero, suc, ◌+◌, ◌*◌, ◌-◌, Bool, true, false, ◌&&◌, ◌||◌, not, Option, List, [], ◌∷◌, ◌++◌, ltb,
  ◌==◌, if◌then◌else◌,
}
use mathlib.Core.Option
use mathlib.Core.Option.{some}
use stunt.Prelude.Int.{ℤ, pos, ltb_ℤ, eqb_ℤ}
use stunt.Text.Case.{Text}
use stunt.Value.{Floats, Var, Node, leaf, node}
use stunt.Value.Compare.{compare}

abbrev pub is_red : Node → Bool
is_red leaf = false
is_red (node red k v l r) = red

-- A node by its links in a direction, `true` being right, and in the other one.
abbrev pub make : Bool → Bool → Var → Var → Node → Node → Node
make true red k v along other = node red k v other along
make false red k v along other = node red k v along other

-- A node above the current one: the direction that was taken, and the other link.
pub record Frame : Type 0 where
  pub dir : Bool
  pub red : Bool
  pub key : Var
  pub value : Var
  pub other : Node

abbrev pub blacken : Node → Node
blacken leaf = leaf
blacken (node red k v l r) = node false k v l r

abbrev pub both_red : Node → Bool
both_red leaf = false
both_red (node red k v l r) = is_red l && is_red r

-- The simple red violation: the color flip.
abbrev pub flip : Node → Node
flip leaf = leaf
flip (node red k v l r) = node true k v (blacken l) (blacken r)

-- The tree with the nodes above put on again.
abbrev pub plug : List Frame → Node → Node
plug [] q = q
plug (f ∷ path) q = plug path (make f.dir f.red f.key f.value q f.other)

abbrev pub top_red : List Frame → Bool
top_red [] = false
top_red (f ∷ path) = f.red

-- The place of the search: the nodes above, from the parent on, and the current node. After a rotation
-- the helpers of the search do not point to the nodes right above the current one until they have moved
-- down again, `stale` times.
pub record Place : Type 0 where
  pub path : List Frame
  pub focus : Node
  pub stale : ℕ

-- `t->link[dir2] = rbsingle(g, !last)`: the parent comes up, the grandparent goes down.
abbrev pub single : Frame → Frame → List Frame → Node → Place
single p g path q = record {
  path = record p { red = false; other = make p.dir true g.key g.value p.other g.other } ∷ path;
  focus = q;
  stale = 2;
}

-- `t->link[dir2] = rbdouble(g, !last)`: the current node, which lies between the two, comes up.
abbrev pub double : Frame → Frame → List Frame → Node → Place
double p g path leaf = record { path = p ∷ g ∷ path; focus = leaf; stale = 0 }
double p g path (node red k v l r) = record {
  path = path;
  focus =
      if g.dir
      then node false k v (node true g.key g.value g.other l) (node true p.key p.value r p.other)
      else node false k v (node true p.key p.value p.other l) (node true g.key g.value r g.other);
  stale = 3;
}

-- The hard red violation. `none` means that the helpers would not be the nodes that are rotated, or
-- that there is no grandparent.
abbrev pub rotate : List Frame → Node → ℕ → Option Place
rotate (p ∷ g ∷ path) q zero =
    if p.dir && g.dir
    then some (single p g path q)
    else if p.dir || g.dir
    then some (double p g path q)
    else some (single p g path q)
rotate path q stale = Option.none

abbrev pub repair : List Frame → Node → ℕ → Option Place
repair path q stale =
    if is_red q && top_red path
    then rotate path q stale
    else some (record { path = path; focus = q; stale = stale })

abbrev pub height : Node → ℕ
height leaf = 0
height (node red k v l r) = suc (height l + height r)

-- What is at the current place: a new node at a null link, or the node after a color flip.
abbrev pub current : Var → Var → Node → Node
current key value leaf = node true key value leaf leaf
current key value (node red k v l r) =
    if is_red l && is_red r then flip (node red k v l r) else node red k v l r

-- The keys are no collections, so `compare` does not panic.
unfoldable pub node_compare : Floats → (Text → Text → ℤ) → Bool → Var → Var → ℤ
node_compare f strcmp case_matters key1 key2 =
    elim (compare f strcmp false case_matters key1 key2) [ Option.none ↦ pos 0 | some c ↦ c ]

module _ (cmp : Var → Var → ℤ) (key : Var) where
  abbrev pub goes_right : Var → Bool
  goes_right k = ltb_ℤ (cmp k key) (pos 0)

  abbrev pub is_same : Var → Bool
  is_same k = eqb_ℤ (cmp k key) (pos 0)

  unfoldable pub rbfind : Node → Option Var
  rbfind leaf = Option.none
  rbfind (node red k v l r) =
      let left = rbfind l in
      let right = rbfind r in if is_same k then some v else if goes_right k then right else left

module _ (cmp : Var → Var → ℤ) (key value : Var) where
  -- The search down the tree, on fuel, and the tree at the end.
  unfoldable pub descend : ℕ → List Frame → Node → ℕ → Option Node
  descend zero path q stale = Option.none
  descend (suc fuel) path q stale = elim (repair path (current key value q) stale) [
    | Option.none ↦ Option.none
    | some place ↦ elim place.focus [
      | leaf ↦ Option.none
      | node red k v l r ↦
          let right =
            descend fuel
              (record { dir = true; red = red; key = k; value = v; other = l } ∷ place.path) r
              (place.stale - 1) in
          let left =
            descend fuel
              (record { dir = false; red = red; key = k; value = v; other = r } ∷ place.path) l
              (place.stale - 1) in
          if is_same cmp key k
          then some (plug place.path (node red k v l r))
          else if goes_right cmp key k
          then right
          else left
    ]
  ]

  unfoldable pub rbinsert : Node → Option Node
  rbinsert leaf = some (node false key value leaf leaf)
  rbinsert (node red k v l r) =
      Option.map blacken (descend (2 * height (node red k v l r) + 2) [] (node red k v l r) 0)
