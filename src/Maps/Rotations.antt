-- ===== src/Maps/Rotations.antt =====
-- The rotations mend a red node below a red one.
use stunt.Prelude.{
  ℕ, suc, ◌≡◌, refl, subst, true, false, ◌&&◌, ◌||◌, List, ◌∷◌, arith, if◌then◌else◌, Bool-cases,
  inl, inr,
}
use stunt.Value.{Var, Node, node}
use stunt.Maps.{is_red, Frame, single, double}
use stunt.Maps.Shape.{HasHeight, HasColours, Fits, IsPlaced, make-HasHeight, make-HasColours}

-- A red parent whose sibling is black, and what its rules say of the grandparent.
pub record IsRedParent (n : ℕ) (p g : Frame) (path : List Frame) : Type 0 where
  pub fits : Fits n (p ∷ g ∷ path)
  pub red : p.red ≡ true
  pub uncle : is_red g.other ≡ false

pub record Around (n : ℕ) (p g : Frame) (path : List Frame) : Type 0 where
  pub height_p : HasHeight n p.other
  pub colours_p : HasColours p.other
  pub black_p : is_red p.other ≡ false
  pub height_g : HasHeight n g.other
  pub colours_g : HasColours g.other
  pub above : Fits (suc n) path

around : (n : ℕ) (p g : Frame) (path : List Frame) → IsRedParent n p g path → Around n p g path
unfolding Fits
around n p g path i =
    let (hp, cp, ep, (hg, cg, eg, more)) = i.fits in
    let both : (is_red p.other || g.red) ≡ false =
      subst (λ b. (b && (is_red p.other || g.red)) ≡ false) i.red ep in
    let black_p : is_red p.other ≡ false = ground arith in
    let black_g : g.red ≡ false = ground arith in
    let lvl : (if p.red then n else suc n) ≡ n = rw i.red refl in
    record {
      height_p = hp;
      colours_p = cp;
      black_p = black_p;
      height_g = subst (λ j. HasHeight j g.other) lvl hg;
      colours_g = cg;
      above = subst (λ j. Fits j path) (rw (lvl, black_g) refl) more;
    }

pub single-IsPlaced :
    (n : ℕ) (p g : Frame) (path : List Frame) (q : Node)
    → IsRedParent n p g path
    → HasHeight n q
    → HasColours q
    → IsPlaced n (single p g path q).path q
unfolding Fits
single-IsPlaced n p g path q i h c =
    let a = around n p g path i in
    record {
      fits = (
        make-HasHeight p.dir true g.key g.value n p.other g.other a.height_p a.height_g,
        make-HasColours p.dir true g.key g.value p.other g.other (rw (i.uncle, a.black_p) refl)
            a.colours_p a.colours_g,
        refl,
        a.above,
      );
      height = h;
      colours = c;
      top = refl;
    }

pub double-IsPlaced :
    (n : ℕ) (p g : Frame) (path : List Frame) (k v : Var) (l r : Node)
    → IsRedParent n p g path
    → HasHeight n (node true k v l r)
    → HasColours (node true k v l r)
    → IsPlaced (suc n) path (double p g path (node true k v l r)).focus
unfolding HasHeight HasColours
double-IsPlaced n p g path k v l r i (hl, hr) (e, cl, cr) =
    let a = around n p g path i in
    let black_l : is_red l ≡ false = ground arith in
    let black_r : is_red r ≡ false = ground arith in
    elim (Bool-cases g.dir) [
      | inl right ↦ rw right (record {
        fits = a.above;
        height = ((a.height_g, hl), (hr, a.height_p));
        colours = (
          refl,
          (rw (i.uncle, black_l) refl, a.colours_g, cl),
          (rw (a.black_p, black_r) refl, cr, a.colours_p),
        );
        top = ground arith;
      })
      | inr left ↦ rw left (record {
        fits = a.above;
        height = ((a.height_p, hl), (hr, a.height_g));
        colours = (
          refl,
          (rw (a.black_p, black_l) refl, a.colours_p, cl),
          (rw (i.uncle, black_r) refl, cr, a.colours_g),
        );
        top = ground arith;
      })
    ]
