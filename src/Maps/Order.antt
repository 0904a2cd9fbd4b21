-- ===== src/Maps/Order.antt =====
-- The items of a tree from left to right, and of the nodes above a place.
use stunt.Prelude.{
  ℕ, zero, suc, ◌≡◌, refl, sym, subst, ◌∙◌, Bool, true, false, not, some, some_eq, List, [], ◌∷◌,
  ◌++◌, arith, if◌then◌else◌, Bool-cases, inl, inr,
}
use mathlib.Core.List.{append_assoc, append-nil}
use stunt.Value.{Var, Node, leaf, node}
use stunt.Maps.{make, Frame, blacken, flip, plug, top_red, Place, single, double, rotate, repair}

pub record Item : Type 0 where
  pub key : Var
  pub value : Var

abbrev pub item : Var → Var → Item
item k v = record { key = k; value = v }

unfoldable pub items : Node → List Item
items leaf = []
items (node red k v l r) = items l ++ (item k v ∷ items r)

abbrev pub left_of : Frame → List Item
left_of f = if f.dir then items f.other ++ (item f.key f.value ∷ []) else []

abbrev pub right_of : Frame → List Item
right_of f = if f.dir then [] else item f.key f.value ∷ items f.other

unfoldable pub befores : List Frame → List Item
befores [] = []
befores (f ∷ path) = befores path ++ left_of f

unfoldable pub afters : List Frame → List Item
afters [] = []
afters (f ∷ path) = right_of f ++ afters path

make-items :
    (f : Frame) (q : Node)
    → items (make f.dir f.red f.key f.value q f.other) ≡ left_of f ++ (items q ++ right_of f)
unfolding items
make-items f q = elim (Bool-cases f.dir) [
  | inl right ↦ rw right (sym (simp (append_assoc, append-nil) refl))
  | inr left ↦ rw left refl
]

pub plug-items :
    (path : List Frame) (q : Node) → items (plug path q) ≡ befores path ++ (items q ++ afters path)
unfolding befores afters
plug-items [] q = sym (append-nil (items q))
plug-items (f ∷ path) q =
    plug-items path (make f.dir f.red f.key f.value q f.other)
    ∙ rw (make-items f q) (simp append_assoc refl)

single-befores :
    (p g : Frame) (path : List Frame) (q : Node)
    → p.dir ≡ g.dir
    → (befores (single p g path q).path ≡ befores (p ∷ g ∷ path))
      × (afters (single p g path q).path ≡ afters (p ∷ g ∷ path))
unfolding befores afters items
single-befores p g path q e = elim (Bool-cases g.dir) [
  | inl right ↦ rw (e, right) (simp append_assoc refl, refl)
  | inr left ↦ rw (e, left) (simp append-nil refl, simp append_assoc refl)
]

double-items :
    (p g : Frame) (path : List Frame) (k v : Var) (l r : Node)
    → p.dir ≡ not g.dir
    → items (double p g path (node true k v l r)).focus
      ≡ (left_of g ++ left_of p) ++ (items (node true k v l r) ++ (right_of p ++ right_of g))
unfolding items
double-items p g path k v l r e = elim (Bool-cases g.dir) [
  | inl right ↦ rw (e, right) (simp (append_assoc, append-nil) refl)
  | inr left ↦ rw (e, left) (simp append_assoc refl)
]

-- After a repair the node is the current one still; what a double rotation takes from the path is in
-- the tree below the place.
pub record IsMoved (path : List Frame) (red : Bool) (k v : Var) (l r : Node) (place : Place)
    : Type 0 where
  pub red' : Bool
  pub l' : Node
  pub r' : Node
  pub taken_left : List Item
  pub taken_right : List Item
  pub focus_is : place.focus ≡ node red' k v l' r'
  pub items_are : items place.focus ≡ taken_left ++ (items (node red k v l r) ++ taken_right)
  pub before : befores path ≡ befores place.path ++ taken_left
  pub after : afters path ≡ taken_right ++ afters place.path

still-IsMoved :
    (path path' : List Frame) (red : Bool) (k v : Var) (l r : Node) (stale : ℕ)
    → befores path' ≡ befores path
    → afters path' ≡ afters path
    → IsMoved path red k v l r (record { path = path'; focus = node red k v l r; stale = stale })
still-IsMoved path path' red k v l r stale eb ea = record {
  red' = red;
  l' = l;
  r' = r;
  taken_left = [];
  taken_right = [];
  focus_is = refl;
  items_are = sym (append-nil (items (node red k v l r)));
  before = sym eb ∙ sym (append-nil (befores path'));
  after = sym ea;
}

double-IsMoved :
    (path : List Frame) (p g : Frame) (k v : Var) (l r : Node)
    → p.dir ≡ not g.dir
    → IsMoved (p ∷ g ∷ path) true k v l r (double p g path (node true k v l r))
unfolding befores afters
double-IsMoved path p g k v l r e = record {
  red' = false;
  l' = if g.dir then node true g.key g.value g.other l else node true p.key p.value p.other l;
  r' = if g.dir then node true p.key p.value r p.other else node true g.key g.value r g.other;
  taken_left = left_of g ++ left_of p;
  taken_right = right_of p ++ right_of g;
  focus_is = elim (Bool-cases g.dir) [ inl right ↦ rw right refl | inr left ↦ rw left refl ];
  items_are = double-items p g path k v l r e;
  before = append_assoc (befores path) (left_of g) (left_of p);
  after = sym (append_assoc (right_of p) (right_of g) (afters path));
}

rotate-IsMoved :
    (path : List Frame) (k v : Var) (l r : Node) (stale : ℕ) (place : Place)
    → rotate path (node true k v l r) stale ≡ some place
    → IsMoved path true k v l r place
rotate-IsMoved [] k v l r stale place e = cc
rotate-IsMoved (p ∷ []) k v l r stale place e = cc
rotate-IsMoved (p ∷ g ∷ path) k v l r (suc stale) place e = cc
rotate-IsMoved (p ∷ g ∷ path) k v l r zero place e = elim (Bool-cases p.dir) [
  | inl pr ↦ elim (Bool-cases g.dir) [
    | inl gr ↦ as_single (rw (pr, gr) refl) (once (pr ∙ sym gr))
    | inr gl ↦ as_double (rw (pr, gl) refl) (double-IsMoved path p g k v l r (ground arith))
  ]
  | inr pl ↦ elim (Bool-cases g.dir) [
    | inl gr ↦ as_double (rw (pl, gr) refl) (double-IsMoved path p g k v l r (ground arith))
    | inr gl ↦ as_single (rw (pl, gl) refl) (once (pl ∙ sym gl))
  ]
]
  where
    as_single :
        rotate (p ∷ g ∷ path) (node true k v l r) zero ≡ some (single p g path (node true k v l r))
        → IsMoved (p ∷ g ∷ path) true k v l r (single p g path (node true k v l r))
        → IsMoved (p ∷ g ∷ path) true k v l r place
    as_single h m = subst (IsMoved (p ∷ g ∷ path) true k v l r) (some_eq (sym h ∙ e)) m

    as_double :
        rotate (p ∷ g ∷ path) (node true k v l r) zero ≡ some (double p g path (node true k v l r))
        → IsMoved (p ∷ g ∷ path) true k v l r (double p g path (node true k v l r))
        → IsMoved (p ∷ g ∷ path) true k v l r place
    as_double h m = subst (IsMoved (p ∷ g ∷ path) true k v l r) (some_eq (sym h ∙ e)) m

    once : p.dir ≡ g.dir → IsMoved (p ∷ g ∷ path) true k v l r (single p g path (node true k v l r))
    once same =
        let (eb, ea) = single-befores p g path (node true k v l r) same in
        still-IsMoved (p ∷ g ∷ path) (single p g path (node true k v l r)).path true k v l r 2 eb ea

pub repair-IsMoved :
    (path : List Frame) (red : Bool) (k v : Var) (l r : Node) (stale : ℕ) (place : Place)
    → repair path (node red k v l r) stale ≡ some place
    → IsMoved path red k v l r place
repair-IsMoved path false k v l r stale place e =
    subst (IsMoved path false k v l r) (some_eq e)
      (still-IsMoved path path false k v l r stale refl refl)
repair-IsMoved path true k v l r stale place e = elim (Bool-cases (top_red path)) [
  | inl red ↦ rotate-IsMoved path k v l r stale place (rw red at e)
  | inr black ↦
      subst (IsMoved path true k v l r) (some_eq (rw black at e))
        (still-IsMoved path path true k v l r stale refl refl)
]

-- What the current place holds.
pub flip-items :
    (k v : Var) (red : Bool) (l r : Node)
    → items (flip (node red k v l r)) ≡ items (node red k v l r)
unfolding items
flip-items k v red l r = rw (blacken_items l, blacken_items r) refl
  where
    blacken_items : (q : Node) → items (blacken q) ≡ items q
    blacken_items leaf = refl
    blacken_items (node red k v l r) = refl
