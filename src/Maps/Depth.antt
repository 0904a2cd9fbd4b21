-- ===== src/Maps/Depth.antt =====
-- The array `path` of a traversal has HEIGHT_LIMIT places.
use stunt.Prelude.{
  ℕ, zero, suc, ◌+◌, ◌-◌, ◌*◌, ◌^◌, ◌≤◌, ◌<◌, ◌≡◌, refl, ap, subst, Bool, true, false, not, some,
  some_eq, List, [], ◌∷◌, arith, length, length-append, if◌then◌else◌, leb, Bool-cases, inl, inr,
}
use Prim.Native.Nat.{max}
use stunt.Value.{Var, Node, leaf, node}
use stunt.Maps.{is_red, make, Frame, plug}
use stunt.Maps.Shape.{HasHeight, HasColours}
use stunt.Maps.Balanced.Ends.{Balanced}
use stunt.Maps.Order.{item, items}
use stunt.Maps.Found.{IsTree}
use stunt.Maps.Walk.{Trav, frame, slide, rbstart, climb, rbmove}

abbrev pub height_limit : ℕ
height_limit = 64

-- The number of nodes on the longest way down.
unfoldable pub depth : Node → ℕ
depth leaf = 0
depth (node red k v l r) = suc (max (depth l) (depth r))

abbrev one_red : Bool → ℕ
one_red b = if b then 1 else 0

depth-le : (m : ℕ) (t : Node) → HasHeight m t → HasColours t → depth t ≤ 2 * m + one_red (is_red t)
unfolding depth HasHeight HasColours
depth-le m leaf h c = omega arith
depth-le m (node true k v l r) (hl, hr) (e, cl, cr) =
    let a = depth-le m l hl cl in let b = depth-le m r hr cr in ground arith
depth-le zero (node false k v l r) h c = absurd h
depth-le (suc m) (node false k v l r) (hl, hr) (e, cl, cr) =
    let a = depth-le m l hl cl in let b = depth-le m r hr cr in ground arith

pow_le_items : (m : ℕ) (t : Node) → HasHeight m t → 2 ^ m ≤ length (items t) + 1
unfolding items HasHeight
pow_le_items m leaf h = ground arith
pow_le_items m (node true k v l r) (hl, hr) =
    omega (arith, pow_le_items m l hl, length-append (items l) (item k v ∷ items r))
pow_le_items zero (node false k v l r) h = absurd h
pow_le_items (suc m) (node false k v l r) (hl, hr) =
    let e : 2 ^ suc m ≡ 2 * 2 ^ m = omega arith in
    omega (
      arith,
      pow_le_items m l hl,
      pow_le_items m r hr,
      length-append (items l) (item k v ∷ items r),
    )

make-depth :
    (f : Frame) (q : Node) → suc (depth q) ≤ depth (make f.dir f.red f.key f.value q f.other)
unfolding depth
make-depth f q = elim (Bool-cases f.dir) [
  | inl right ↦ rw right (ground arith)
  | inr left ↦ rw left (ground arith)
]

plug-depth : (path : List Frame) (q : Node) → length path + depth q ≤ depth (plug path q)
plug-depth [] q = omega arith
plug-depth (f ∷ path) q =
    omega (arith, make-depth f q, plug-depth path (make f.dir f.red f.key f.value q f.other))

-- The traversal is at a node of the tree, or at its end with an empty path.
pub data IsAt (t : Node) : Trav → Type 0 where
  ended : IsAt t (record { it = leaf; path = [] })
  at_node :
      (path : List Frame) (red : Bool) (k v : Var) (l r : Node)
      → plug path (node red k v l r) ≡ t
      → IsAt t (record { it = node red k v l r; path = path })

slide-IsAt :
    (t : Node) (dir : Bool) (path : List Frame) (red : Bool) (k v : Var) (l r : Node)
    → plug path (node red k v l r) ≡ t
    → IsAt t (slide dir path (node red k v l r))
unfolding slide
slide-IsAt t false path red k v leaf r e = at_node path red k v leaf r e
slide-IsAt t false path red k v (node red' k' v' l' r') r e =
    slide-IsAt t false (frame false red k v r ∷ path) red' k' v' l' r' e
slide-IsAt t true path red k v l leaf e = at_node path red k v l leaf e
slide-IsAt t true path red k v l (node red' k' v' l' r') e =
    slide-IsAt t true (frame true red k v l ∷ path) red' k' v' l' r' e

make-IsAt :
    (t : Node) (path : List Frame) (dir red : Bool) (k v : Var) (last other : Node)
    → plug path (make dir red k v last other) ≡ t
    → IsAt t (record { it = make dir red k v last other; path = path })
make-IsAt t path true red k v last other e = at_node path red k v other last e
make-IsAt t path false red k v last other e = at_node path red k v last other e

climb-IsAt :
    (t : Node) (dir : Bool) (path : List Frame) (last : Node)
    → plug path last ≡ t
    → IsAt t (climb dir path last)
unfolding climb
climb-IsAt t dir [] last e = ended
climb-IsAt t dir (f ∷ path) last e = elim (Bool-cases (if f.dir then dir else not dir)) [
  | inl comes ↦ rw comes (climb-IsAt t dir path (make f.dir f.red f.key f.value last f.other) e)
  | inr stays ↦ rw stays (make-IsAt t path f.dir f.red f.key f.value last f.other e)
]

-- The traversals that the operations make of a tree.
pub data Visits (t : Node) : Trav → Type 0 where
  starts : (dir : Bool) → Visits t (rbstart t dir)
  moves :
      (trav later : Trav) (dir : Bool)
      → Visits t trav
      → rbmove trav dir ≡ some later
      → Visits t later

move-IsAt :
    (t : Node) (trav later : Trav) (dir : Bool)
    → IsAt t trav
    → rbmove trav dir ≡ some later
    → IsAt t later
unfolding rbmove
move-IsAt t _ later dir ended h = cc
move-IsAt t _ later true (at_node path red k v l leaf e) h =
    subst (IsAt t) (some_eq h) (climb-IsAt t true path (node red k v l leaf) e)
move-IsAt t _ later true (at_node path red k v l (node red' k' v' l' r') e) h =
    subst (IsAt t) (some_eq h) (slide-IsAt t false (frame true red k v l ∷ path) red' k' v' l' r' e)
move-IsAt t _ later false (at_node path red k v leaf r e) h =
    subst (IsAt t) (some_eq h) (climb-IsAt t false path (node red k v leaf r) e)
move-IsAt t _ later false (at_node path red k v (node red' k' v' l' r') r e) h =
    subst (IsAt t) (some_eq h) (slide-IsAt t true (frame false red k v r ∷ path) red' k' v' l' r' e)

start-IsAt : (t : Node) (dir : Bool) → IsAt t (rbstart t dir)
unfolding rbstart slide
start-IsAt leaf true = ended
start-IsAt leaf false = ended
start-IsAt (node red k v l r) dir = slide-IsAt (node red k v l r) dir [] red k v l r refl

Visits-IsAt : (t : Node) (trav : Trav) → Visits t trav → IsAt t trav
Visits-IsAt t _ (starts dir) = start-IsAt t dir
Visits-IsAt t _ (moves trav later dir v h) = move-IsAt t trav later dir (Visits-IsAt t trav v) h

IsAt-depth : (t : Node) (trav : Trav) → IsAt t trav → length trav.path ≤ depth t - 1
unfolding depth
IsAt-depth t _ ended = omega arith
IsAt-depth t _ (at_node path red k v l r e) =
    let d : depth (plug path (node red k v l r)) ≡ depth t = ap depth e in
    omega (arith, plug-depth path (node red k v l r))

pow_large : (j : ℕ) → 2 ^ 32 ≤ 2 ^ (32 + j)
pow_large zero = omega arith
pow_large (suc j) =
    let e : 2 ^ (32 + suc j) ≡ 2 * 2 ^ (32 + j) = doubled (32 + j) (32 + suc j) (omega arith) in
    omega (arith, pow_large j)
  where
    doubled : (a b : ℕ) → b ≡ suc a → 2 ^ b ≡ 2 * 2 ^ a
    doubled a b e = rw e (omega arith)

-- In a red-black tree with a black root and fewer than 2 ^ 32 - 1 items, every traversal that rbstart
-- and any moves in both directions make has fewer nodes on its path than the array has places.
pub Visits-height_limit :
    (t : Node) (trav : Trav)
    → IsTree t
    → length (items t) + 1 < 2 ^ 32
    → Visits t trav
    → length trav.path < height_limit
unfolding Balanced
Visits-height_limit t trav i few v =
    let (m, h, c) = i.balanced in
    let low : m < 32 = below m (length (items t)) few (pow_le_items m t h) in
    let black : one_red (is_red t) ≡ 0 = rw i.root refl in
    omega (arith, depth-le m t h c, IsAt-depth t trav (Visits-IsAt t trav v))
  where
    below : (m n : ℕ) → n + 1 < 2 ^ 32 → 2 ^ m ≤ n + 1 → m < 32
    below m n few le = elim (Bool-cases (leb 32 m)) [
      | inr small ↦ ground arith
      | inl big ↦
          let same : 32 + (m - 32) ≡ m = ground arith in
          let large : 2 ^ 32 ≤ 2 ^ m = subst (λ j. 2 ^ 32 ≤ 2 ^ j) same (pow_large (m - 32)) in
          absurd (omega arith)
    ]
