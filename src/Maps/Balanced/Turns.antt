-- ===== src/Maps/Balanced/Turns.antt =====
-- A rotation leaves a place that the search can go on from.
use stunt.Prelude.{
  ℕ, zero, suc, ◌*◌, ◌<◌, ◌≡◌, refl, sym, subst, ◌∙◌, Bool, true, false, ◌&&◌, not, some, List, [],
  ◌∷◌, arith, if◌then◌else◌, Bool-cases, inl, inr, ◌⊎◌,
}
use stunt.Prelude.Int.{ℤ}
use stunt.Value.{Var, Node, leaf, node}
use stunt.Maps.{is_red, make, Frame, top_red, goes_right, is_same, Place, single, double, rotate}
use stunt.Maps.Shape.{HasHeight, HasColours, Fits}
use stunt.Maps.Rotations.{IsRedParent, single-IsPlaced, double-IsPlaced}
use stunt.Maps.Balanced.{Quiet, Uncle, Directed, way, Calm, Ready, next, Goes, IsMended}

module _ (cmp : Var → Var → ℤ) (key : Var) where
  -- The node at which a rotation is made: it is the new one, or the links below it are quiet.
  abbrev pub Settled : ℕ → Var → Node → Node → Type 0
  Settled w k l r =
      (is_same cmp key k ≡ true)
      ⊎ (Quiet l × Quiet r × (2 * suc (way cmp key (next cmp key (goes_right cmp key k) l r)) < w))

  pub Quiet-next : (right : Bool) (l r : Node) → Quiet l → Quiet r → Quiet (next cmp key right l r)
  Quiet-next true l r ql qr = qr
  Quiet-next false l r ql qr = ql

  single-IsMended :
      (w n : ℕ) (p g : Frame) (path : List Frame) (k v : Var) (l r : Node)
      → IsRedParent n p g path
      → HasHeight n (node true k v l r)
      → HasColours (node true k v l r)
      → Directed cmp key (p ∷ g ∷ path)
      → Settled w k l r
      → IsMended cmp key w (single p g path (node true k v l r))
  unfolding Directed Goes Ready
  single-IsMended w n p g path k v l r i h c (dp, (dg, d)) s = record {
    level = n;
    placed = single-IsPlaced n p g path (node true k v l r) i h c;
    directed = (dp, d);
    goes = elim s [
      | inl same ↦ inl same
      | inr (ql, qr, le) ↦ inr (Quiet-next (goes_right cmp key k) l r ql qr, omega arith)
    ];
  }

  pub Quiet-black : (q : Node) → Quiet q → is_red q ≡ false
  unfolding Quiet
  Quiet-black leaf h = absurd h
  Quiet-black (node red k v l r) (e, both) = e

  -- A node that went down in a double rotation, with the link of the new top along its direction.
  pub record IsTurned (q c : Node) : Type 0 where
    pub calm : Calm cmp key q
    pub ways : way cmp key q ≡ suc (way cmp key c)

  and_false : (b : Bool) → (b && false) ≡ false
  and_false b = ground arith

  turned :
      (dir : Bool) (k v : Var) (c other : Node)
      → dir ≡ goes_right cmp key k
      → Quiet c
      → IsTurned (make dir true k v c other) c
  unfolding Calm way
  turned true k v c other e quiet = record {
    calm =
        rw (Quiet-black c quiet)
          (and_false (is_red other), subst (λ b. Quiet (if b then c else other)) e quiet);
    ways =
        subst
          (λ b. (if b then suc (way cmp key c) else suc (way cmp key other)) ≡ suc (way cmp key c))
          e refl;
  }
  turned false k v c other e quiet = record {
    calm = rw (Quiet-black c quiet) (refl, subst (λ b. Quiet (if b then other else c)) e quiet);
    ways =
        subst
          (λ b. (if b then suc (way cmp key other) else suc (way cmp key c)) ≡ suc (way cmp key c))
          e refl;
  }

  IsTurned-next :
      (right : Bool) (l r l' r' : Node)
      → IsTurned l' l
      → IsTurned r' r
      → IsTurned (next cmp key right l' r') (next cmp key right l r)
  IsTurned-next true l r l' r' tl tr = tr
  IsTurned-next false l r l' r' tl tr = tl

  double-Goes :
      (w : ℕ) (path : List Frame) (k v : Var) (l r l' r' : Node)
      → (Quiet l → IsTurned l' l)
      → (Quiet r → IsTurned r' r)
      → Settled w k l r
      → Goes cmp key w path (node false k v l' r') 3
  unfolding Goes Ready
  double-Goes w path k v l r l' r' tl tr (inl same) = inl same
  double-Goes w path k v l r l' r' tl tr (inr (ql, qr, le)) =
      let t = IsTurned-next (goes_right cmp key k) l r l' r' (tl ql) (tr qr) in
      inr ((refl, refl, t.calm), omega (arith, t.ways))

  double-IsMended :
      (w n : ℕ) (p g : Frame) (path : List Frame) (k v : Var) (l r : Node)
      → IsRedParent n p g path
      → p.dir ≡ not g.dir
      → HasHeight n (node true k v l r)
      → HasColours (node true k v l r)
      → Directed cmp key (p ∷ g ∷ path)
      → Settled w k l r
      → IsMended cmp key w (double p g path (node true k v l r))
  unfolding Directed
  double-IsMended w n p g path k v l r i turn h c (dp, (dg, d)) s = record {
    level = suc n;
    placed = double-IsPlaced n p g path k v l r i h c;
    directed = d;
    goes = elim (Bool-cases g.dir) [
      | inl right ↦
          let left_p : p.dir ≡ false = rw right at turn in
          rw right (
            double-Goes w path k v l r _ _ (turned true g.key g.value l g.other (sym right ∙ dg))
              (turned false p.key p.value r p.other (sym left_p ∙ dp)) s)
      | inr left ↦
          let right_p : p.dir ≡ true = rw left at turn in
          rw left (
            double-Goes w path k v l r _ _ (turned true p.key p.value l p.other (sym right_p ∙ dp))
              (turned false g.key g.value r g.other (sym left ∙ dg)) s)
    ];
  }

  -- The hard red violation is mended.
  pub rotate-IsMended :
      (w n : ℕ) (path : List Frame) (k v : Var) (l r : Node)
      → Fits n path
      → top_red path ≡ true
      → Uncle path
      → HasHeight n (node true k v l r)
      → HasColours (node true k v l r)
      → Directed cmp key path
      → Settled w k l r
      → (place : Place) × (rotate path (node true k v l r) zero ≡ some place)
        × IsMended cmp key w place
  unfolding Uncle
  rotate-IsMended w n [] k v l r fits red uncle h c d s = absurd (ground arith)
  rotate-IsMended w n (p ∷ []) k v l r fits red uncle h c d s = absurd (ground arith)
  rotate-IsMended w n (p ∷ g ∷ path) k v l r fits red uncle h c d s =
      let i : IsRedParent n p g path = record { fits = fits; red = red; uncle = ground arith } in
      elim (Bool-cases p.dir) [
        | inl pr ↦ elim (Bool-cases g.dir) [
          | inl gr ↦ (
            single p g path (node true k v l r),
            rw (pr, gr) refl,
            single-IsMended w n p g path k v l r i h c d s,
          )
          | inr gl ↦ (
            double p g path (node true k v l r),
            rw (pr, gl) refl,
            double-IsMended w n p g path k v l r i (ground arith) h c d s,
          )
        ]
        | inr pl ↦ elim (Bool-cases g.dir) [
          | inl gr ↦ (
            double p g path (node true k v l r),
            rw (pl, gr) refl,
            double-IsMended w n p g path k v l r i (ground arith) h c d s,
          )
          | inr gl ↦ (
            single p g path (node true k v l r),
            rw (pl, gl) refl,
            single-IsMended w n p g path k v l r i h c d s,
          )
        ]
      ]
