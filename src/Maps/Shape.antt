-- ===== src/Maps/Shape.antt =====
-- The two rules of red-black trees, for trees and for the nodes above a place.
use stunt.Prelude.{
  ℕ, zero, suc, ◌≡◌, refl, subst, Bool, true, false, ◌&&◌, ◌||◌, List, [], ◌∷◌, arith,
  if◌then◌else◌,
}
use stunt.Value.{Var, Node, leaf, node}
use stunt.Maps.{is_red, make, Frame, blacken, flip, plug, top_red}

-- Every way down meets the same number of black nodes.
unfoldable pub HasHeight : ℕ → Node → Type 0
HasHeight n leaf = n ≡ 0
HasHeight n (node true k v l r) = HasHeight n l × HasHeight n r
HasHeight zero (node false k v l r) = ⊥
HasHeight (suc n) (node false k v l r) = HasHeight n l × HasHeight n r

-- No red node has a red node below it.
unfoldable pub HasColours : Node → Type 0
HasColours leaf = Unit {0}
HasColours (node red k v l r) =
    ((red && (is_red l || is_red r)) ≡ false) × HasColours l × HasColours r

-- A node of black height `n` that is black fits under the path.
unfoldable pub Fits : ℕ → List Frame → Type 0
Fits n [] = Unit {0}
Fits n (f ∷ path) =
    HasHeight n f.other
    × HasColours f.other
    × ((f.red && (is_red f.other || top_red path)) ≡ false)
    × Fits (if f.red then n else suc n) path

pub record IsPlaced (n : ℕ) (path : List Frame) (q : Node) : Type 0 where
  pub fits : Fits n path
  pub height : HasHeight n q
  pub colours : HasColours q
  pub top : (top_red path && is_red q) ≡ false

pub make-HasHeight :
    (dir red : Bool) (k v : Var) (n : ℕ) (along other : Node)
    → HasHeight n along
    → HasHeight n other
    → HasHeight (if red then n else suc n) (make dir red k v along other)
unfolding HasHeight
make-HasHeight true true k v n along other a o = (o, a)
make-HasHeight true false k v n along other a o = (o, a)
make-HasHeight false true k v n along other a o = (a, o)
make-HasHeight false false k v n along other a o = (a, o)

pub make-HasColours :
    (dir red : Bool) (k v : Var) (along other : Node)
    → (red && (is_red other || is_red along)) ≡ false
    → HasColours along
    → HasColours other
    → HasColours (make dir red k v along other)
unfolding HasColours
make-HasColours true red k v along other e a o = (e, o, a)
make-HasColours false red k v along other e a o = (ground (arith, e), a, o)

is_red-make :
    (dir red : Bool) (k v : Var) (along other : Node) → is_red (make dir red k v along other) ≡ red
is_red-make true red k v along other = refl
is_red-make false red k v along other = refl

-- A place that fits makes a tree that keeps the rules.
pub plug-IsPlaced :
    (n : ℕ) (path : List Frame) (q : Node)
    → IsPlaced n path q
    → (m : ℕ) × HasHeight m (plug path q) × HasColours (plug path q)
unfolding Fits
plug-IsPlaced n [] q i = (n, i.height, i.colours)
plug-IsPlaced n (f ∷ path) q i =
    let (h, c, e, more) = i.fits in
    plug-IsPlaced (if f.red then n else suc n) path (make f.dir f.red f.key f.value q f.other)
      (record {
        fits = more;
        height = make-HasHeight f.dir f.red f.key f.value n q f.other i.height h;
        colours =
            make-HasColours f.dir f.red f.key f.value q f.other
              (below f.red (is_red f.other) (top_red path) (is_red q) e i.top) i.colours c;
        top =
            rw (is_red-make f.dir f.red f.key f.value q f.other)
              (above f.red (is_red f.other) (top_red path) e);
      })
  where
    below : (a b c d : Bool) → (a && (b || c)) ≡ false → (a && d) ≡ false → (a && (b || d)) ≡ false
    below a b c d e t = ground arith

    above : (a b c : Bool) → (a && (b || c)) ≡ false → (c && a) ≡ false
    above a b c e = ground arith

pub blacken-HasHeight :
    (n : ℕ) (q : Node) → is_red q ≡ true → HasHeight n q → HasHeight (suc n) (blacken q)
unfolding HasHeight
blacken-HasHeight n leaf e h = cc
blacken-HasHeight n (node true k v l r) e h = h
blacken-HasHeight n (node false k v l r) e h = cc

pub blacken-HasColours : (q : Node) → HasColours q → HasColours (blacken q)
unfolding HasColours
blacken-HasColours leaf c = tt
blacken-HasColours (node red k v l r) (e, cl, cr) = (refl, cl, cr)

pub is_red-blacken : (q : Node) → is_red (blacken q) ≡ false
is_red-blacken leaf = refl
is_red-blacken (node red k v l r) = refl

-- The color flip keeps the rules below the node.
pub flip-IsPlaced :
    (n : ℕ) (k v : Var) (l r : Node)
    → is_red l ≡ true
    → is_red r ≡ true
    → HasHeight n (node false k v l r)
    → HasColours (node false k v l r)
    → HasHeight n (flip (node false k v l r)) × HasColours (flip (node false k v l r))
unfolding HasHeight HasColours
flip-IsPlaced zero k v l r a b h c = absurd h
flip-IsPlaced (suc n) k v l r a b (hl, hr) (e, cl, cr) = (
  (blacken-HasHeight n l a hl, blacken-HasHeight n r b hr),
  (rw (is_red-blacken l, is_red-blacken r) refl, blacken-HasColours l cl, blacken-HasColours r cr),
)

links-HasHeight :
    (n : ℕ) (dir red : Bool) (k v : Var) (along other : Node)
    → HasHeight n (make dir red k v along other)
    → (m : ℕ) × HasHeight m along × HasHeight m other × (n ≡ (if red then m else suc m))
unfolding HasHeight
links-HasHeight n true true k v along other (o, a) = (n, a, o, refl)
links-HasHeight n false true k v along other (a, o) = (n, a, o, refl)
links-HasHeight zero true false k v along other h = absurd h
links-HasHeight zero false false k v along other h = absurd h
links-HasHeight (suc n) true false k v along other (o, a) = (n, a, o, refl)
links-HasHeight (suc n) false false k v along other (a, o) = (n, a, o, refl)

links-HasColours :
    (dir red : Bool) (k v : Var) (along other : Node)
    → HasColours (make dir red k v along other)
    → ((red && (is_red other || is_red along)) ≡ false) × HasColours along × HasColours other
unfolding HasColours
links-HasColours true red k v along other (e, o, a) = (e, a, o)
links-HasColours false red k v along other (e, a, o) = (ground (arith, e), a, o)

-- The step to a link of the node.
pub down-IsPlaced :
    (n : ℕ) (path : List Frame) (dir red : Bool) (k v : Var) (along other : Node)
    → IsPlaced n path (make dir red k v along other)
    → (m : ℕ) × IsPlaced m
        (record { dir = dir; red = red; key = k; value = v; other = other } ∷ path)
        along
unfolding Fits
down-IsPlaced n path dir red k v along other i =
    let (m, a, o, e) = links-HasHeight n dir red k v along other i.height in
    let (c, ca, co) = links-HasColours dir red k v along other i.colours in
    let black : (top_red path && red) ≡ false =
      subst (λ b. (top_red path && b) ≡ false) (is_red-make dir red k v along other) i.top in
    (
      m,
      record {
        fits = (
          o,
          co,
          around red (is_red other) (is_red along) (top_red path) c black,
          subst (λ j. Fits j path) e i.fits,
        );
        height = a;
        colours = ca;
        top = at red (is_red other) (is_red along) c;
      },
    )
  where
    around : (a b c d : Bool) → (a && (b || c)) ≡ false → (d && a) ≡ false → (a && (b || d)) ≡ false
    around a b c d e t = ground arith

    at : (a b c : Bool) → (a && (b || c)) ≡ false → (a && c) ≡ false
    at a b c e = ground arith
