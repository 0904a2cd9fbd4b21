-- ===== src/Maps/Walk.antt =====
-- map.cc: the traversal of a tree, `rbtrav`, and the loop of `mapforeach`.
use stunt.Prelude.{
  ℕ, zero, suc, ◌<◌, ◌≡◌, refl, sym, ap, subst, ◌∙◌, Bool, true, false, not, Option, some, List, [],
  ◌∷◌, ◌++◌, arith, length, if◌then◌else◌, Bool-cases, inl, inr,
}
use mathlib.Core.Option
use mathlib.Core.List.{append_assoc, append-nil}
use stunt.Value.{Var, Node, leaf, node}
use stunt.Maps.{make, Frame}
use stunt.Maps.Order.{Item, item, items, afters}

-- The current node, a leaf being NULL, and the nodes above it with the links that were taken.
pub record Trav : Type 0 where
  pub it : Node
  pub path : List Frame

abbrev pub frame : Bool → Bool → Var → Var → Node → Frame
frame dir red k v other = record { dir = dir; red = red; key = k; value = v; other = other }

-- The loop that follows the links of one direction to the last node.
unfoldable pub slide : Bool → List Frame → Node → Trav
slide dir path leaf = record { it = leaf; path = path }
slide false path (node red k v leaf r) = record { it = node red k v leaf r; path = path }
slide false path (node red k v (node red' k' v' l' r') r) =
    slide false (frame false red k v r ∷ path) (node red' k' v' l' r')
slide true path (node red k v l leaf) = record { it = node red k v l leaf; path = path }
slide true path (node red k v l (node red' k' v' l' r')) =
    slide true (frame true red k v l ∷ path) (node red' k' v' l' r')

unfoldable pub rbstart : Node → Bool → Trav
rbstart tree dir = slide dir [] tree

-- The loop that goes up as long as it comes from the link in the direction.
unfoldable pub climb : Bool → List Frame → Node → Trav
climb dir [] last = record { it = leaf; path = [] }
climb dir (f ∷ path) last =
    let parent = make f.dir f.red f.key f.value last f.other in
    let higher = climb dir path parent in
    if (if f.dir then dir else not dir) then higher else record { it = parent; path = path }

abbrev move_right : List Frame → Bool → Var → Var → Node → Node → Trav
move_right path red k v l leaf = climb true path (node red k v l leaf)
move_right path red k v l (node red' k' v' l' r') =
    slide false (frame true red k v l ∷ path) (node red' k' v' l' r')

abbrev move_left : List Frame → Bool → Var → Var → Node → Node → Trav
move_left path red k v leaf r = climb false path (node red k v leaf r)
move_left path red k v (node red' k' v' l' r') r =
    slide true (frame false red k v r ∷ path) (node red' k' v' l' r')

-- `none` is the dereference of NULL.
unfoldable pub rbmove : Trav → Bool → Option Trav
rbmove trav dir = elim trav.it [
  | leaf ↦ Option.none
  | node red k v l r ↦
      some (if dir then move_right trav.path red k v l r else move_left trav.path red k v l r)
]

abbrev pub rbtfirst : Node → Trav
rbtfirst tree = rbstart tree false

abbrev pub rbtnext : Trav → Option Trav
rbtnext trav = rbmove trav true

-- The items that the loop of `mapforeach` calls its function with, when the function never stops it;
-- on fuel.
unfoldable pub mapforeach : ℕ → Trav → Option (List Item)
mapforeach zero trav = Option.none
mapforeach (suc fuel) trav = elim trav.it [
  | leaf ↦ some []
  | node red k v l r ↦ elim (rbtnext trav) [
    | Option.none ↦ Option.none
    | some later ↦ Option.map (λ is. item k v ∷ is) (mapforeach fuel later)
  ]
]

-- What a traversal has still to visit.
ahead : List Frame → Node → List Item
ahead path leaf = []
ahead path (node red k v l r) = item k v ∷ (items r ++ afters path)

slide-ahead :
    (path : List Frame) (red : Bool) (k v : Var) (l r : Node)
    → ahead (slide false path (node red k v l r)).path (slide false path (node red k v l r)).it
      ≡ items (node red k v l r) ++ afters path
unfolding ahead slide items afters
slide-ahead path red k v leaf r = refl
slide-ahead path red k v (node red' k' v' l' r') r =
    slide-ahead (frame false red k v r ∷ path) red' k' v' l' r' ∙ simp append_assoc refl

climb-ahead :
    (path : List Frame) (last : Node)
    → ahead (climb true path last).path (climb true path last).it ≡ afters path
unfolding ahead climb afters
climb-ahead [] last = refl
climb-ahead (f ∷ path) last = elim (Bool-cases f.dir) [
  | inl right ↦ rw right (climb-ahead path (node f.red f.key f.value f.other last))
  | inr left ↦ rw left refl
]

move_right-ahead :
    (path : List Frame) (red : Bool) (k v : Var) (l r : Node)
    → ahead (move_right path red k v l r).path (move_right path red k v l r).it
      ≡ items r ++ afters path
unfolding items afters
move_right-ahead path red k v l leaf = climb-ahead path (node red k v l leaf)
move_right-ahead path red k v l (node red' k' v' l' r') =
    slide-ahead (frame true red k v l ∷ path) red' k' v' l' r'

mapforeach-ahead :
    (fuel : ℕ) (path : List Frame) (it : Node)
    → length (ahead path it) < fuel
    → mapforeach fuel (record { it = it; path = path }) ≡ some (ahead path it)
unfolding mapforeach rbmove ahead
mapforeach-ahead zero path it h = absurd (omega arith)
mapforeach-ahead (suc fuel) path leaf h = refl
mapforeach-ahead (suc fuel) path (node red k v l r) h =
    let e = move_right-ahead path red k v l r in
    let later = move_right path red k v l r in
    let shorter : length (ahead later.path later.it) < fuel =
      subst (λ (is : List Item). length is < fuel) (sym e) (omega arith) in
    rw (mapforeach-ahead fuel later.path later.it shorter) (ap (λ is. some (item k v ∷ is)) e)

-- The walk that begins at the smallest item and goes on with rbtnext ends for every tree, with fuel for
-- one round more than there are items, and visits all items, each once, from left to right.
pub mapforeach-items :
    (t : Node) (fuel : ℕ) → length (items t) < fuel → mapforeach fuel (rbtfirst t) ≡ some (items t)
unfolding rbstart slide afters items ahead
mapforeach-items leaf fuel h = mapforeach-ahead fuel [] leaf h
mapforeach-items (node red k v l r) fuel h =
    let e = slide-ahead [] red k v l r ∙ append-nil (items (node red k v l r)) in
    mapforeach-ahead fuel (slide false [] (node red k v l r)).path
      (slide false [] (node red k v l r)).it
      (subst (λ (is : List Item). length is < fuel) (sym e) h)
    ∙ ap some e
