-- ===== src/Database/Nesting.antt =====
-- The chain of locations above an object ends: the loop of `do_move` stops, and a move that it lets
-- pass closes no circle.
use stunt.Prelude.{
  ℕ, zero, suc, ◌<◌, ◌≡◌, refl, sym, ap, ◌∙◌, Bool, true, false, ◌||◌, Option, none, some, arith,
  if◌then◌else◌, Bool-cases, Option-cases, inl, inr, ◌⊎◌,
}
use mathlib.Core.Option
use stunt.Prelude.Int.{ℤ, eqb_ℤ, eqb_eq, eqb_sym, eqb_refl}
use stunt.Database.Store.{Object, Db, nothing, find}
use stunt.Database.Location.{db_object_location, relocate}
use stunt.Database.Containment.{find-relocate, moved_by}
use stunt.Database.Move.{encloses}

-- Whether the locations from `oid` on come to `nothing` in `n` steps.
unfoldable pub rooted : Db → ℕ → ℤ → Bool
rooted db zero oid = eqb_ℤ oid nothing
rooted db (suc n) oid =
    let next : Bool = elim (db_object_location db oid) [ none ↦ false | some l ↦ rooted db n l ] in
    eqb_ℤ oid nothing || next

pub record IsNested (db : Db) : Type 0 where
  pub nested : (oid l : ℤ) → db_object_location db oid ≡ some l → (n : ℕ) × (rooted db n oid ≡ true)

-- The loop stops.
pub encloses-rooted :
    (db : Db) (n fuel : ℕ) (what oid : ℤ)
    → n < fuel
    → rooted db n oid ≡ true
    → (b : Bool) × (encloses db fuel what oid ≡ some b)
unfolding encloses rooted
encloses-rooted db n zero what oid h r = absurd (omega arith)
encloses-rooted db zero (suc fuel) what oid h r = (false, rw r)
encloses-rooted db (suc n) (suc fuel) what oid h r = elim (Bool-cases (eqb_ℤ oid nothing)) [
  | inl top ↦ (false, rw top)
  | inr low ↦ elim (Bool-cases (eqb_ℤ oid what)) [
    | inl hit ↦ (true, rw (low, hit))
    | inr miss ↦ elim (Option-cases (db_object_location db oid)) [
      | inl gone ↦ cc
      | inr (l, at_l) ↦
          let (b, e) = encloses-rooted db n fuel what l (omega arith) (rw (low, at_l) at r) in
          (b, rw (low, miss, at_l) e)
    ]
  ]
]

pub location-relocate :
    (db : Db) (what old new w l : ℤ)
    → db_object_location db what ≡ some l
    → db_object_location (relocate db what old new) w
      ≡ (if eqb_ℤ w what then some new else db_object_location db w)
unfolding db_object_location
location-relocate db what old new w l h =
    rw (find-relocate db what old new w) (elim (Bool-cases (eqb_ℤ w what)) [
      | inl me ↦ rw (me, eqb_eq w what me, eqb_refl what) (placed (find db what) h)
      | inr other ↦
          rw (other, sym (eqb_sym w what) ∙ other) (stays (find db w) (eqb_ℤ new w) (eqb_ℤ old w))
    ])
  where
    placed :
        (x : Option Object)
        → Option.map (λ (o : Object). o.location) x ≡ some l
        → Option.map
            (λ (o : Object). o.location)
            (Option.map (moved_by true (eqb_ℤ new what) (eqb_ℤ old what) what new) x)
          ≡ some new
    placed none e = cc
    placed (some x) e = refl

    stays :
        (x : Option Object) (b c : Bool)
        → Option.map (λ (o : Object). o.location) (Option.map (moved_by false b c what new) x)
          ≡ Option.map (λ (o : Object). o.location) x
    stays none b c = refl
    stays (some x) b c = refl

module _ (db : Db) (what old new k : ℤ) (h : db_object_location db what ≡ some k) where
  -- Above the new location nothing moves, since the loop has not met the object there.
  rooted-relocate_above :
      (n fuel : ℕ) (oid : ℤ)
      → encloses db fuel what oid ≡ some false
      → rooted db n oid ≡ true
      → rooted (relocate db what old new) n oid ≡ true
  unfolding encloses rooted
  rooted-relocate_above n zero oid e r = cc
  rooted-relocate_above zero (suc fuel) oid e r = r
  rooted-relocate_above (suc n) (suc fuel) oid e r = elim (Bool-cases (eqb_ℤ oid nothing)) [
    | inl top ↦ rw top
    | inr low ↦ elim (Bool-cases (eqb_ℤ oid what)) [
      | inl hit ↦ absurd (ground (arith, rw (low, hit) at e))
      | inr miss ↦ elim (Option-cases (db_object_location db oid)) [
        | inl gone ↦ absurd (ground (arith, rw (low, gone) at r))
        | inr (l, at_l) ↦
            rw (low, location-relocate db what old new oid k h, miss, at_l)
              (rooted-relocate_above n fuel l (rw (low, miss, at_l) at e) (rw (low, at_l) at r))
      ]
    ]
  ]

  rooted-relocate :
      (m : ℕ)
      → rooted (relocate db what old new) m new ≡ true
      → (n : ℕ) (oid : ℤ) → rooted db n oid ≡ true
      → (n' : ℕ) × (rooted (relocate db what old new) n' oid ≡ true)
  unfolding rooted
  rooted-relocate m r' zero oid r = (zero, r)
  rooted-relocate m r' (suc n) oid r = elim (Bool-cases (eqb_ℤ oid nothing)) [
    | inl top ↦ (zero, top)
    | inr low ↦ elim (Bool-cases (eqb_ℤ oid what)) [
      | inl hit ↦ (suc m, rw (low, location-relocate db what old new oid k h, hit) r')
      | inr miss ↦ elim (Option-cases (db_object_location db oid)) [
        | inl gone ↦ absurd (ground (arith, rw (low, gone) at r))
        | inr (l, at_l) ↦
            let (n', r'') = rooted-relocate m r' n l (rw (low, at_l) at r) in
            (suc n', rw (low, location-relocate db what old new oid k h, miss, at_l) r'')
      ]
    ]
  ]

  -- A move to a place that is not inside the object keeps the nesting.
  pub relocate-IsNested :
      (n fuel : ℕ)
      → encloses db fuel what new ≡ some false
      → rooted db n new ≡ true
      → IsNested db
      → IsNested (relocate db what old new)
  relocate-IsNested n fuel e r p = record {
    nested = λ w l at_l.
        from w (Bool-cases (eqb_ℤ w what)) (Option-cases (db_object_location db w))
          (sym (location-relocate db what old new w k h) ∙ at_l);
  }
    where
      up :
          (w l : ℤ)
          → db_object_location db w ≡ some l
          → (n' : ℕ) × (rooted (relocate db what old new) n' w ≡ true)
      up w l at_l =
          let (d, e') = p.nested w l at_l in
          rooted-relocate n (rooted-relocate_above n fuel new e r) d w e'

      from :
          (w : ℤ) {l : ℤ}
          → (eqb_ℤ w what ≡ true) ⊎ (eqb_ℤ w what ≡ false)
          → (db_object_location db w ≡ none) ⊎ ((l' : ℤ) × (db_object_location db w ≡ some l'))
          → (if eqb_ℤ w what then some new else db_object_location db w) ≡ some l
          → (n' : ℕ) × (rooted (relocate db what old new) n' w ≡ true)
      from w b (inr (l', at_l)) e' = up w l' at_l
      from w (inl me) (inl gone) e' =
          up w k (ap (λ a. db_object_location db a) (eqb_eq w what me) ∙ h)
      from w (inr other) (inl gone) e' = cc
