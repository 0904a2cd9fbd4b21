-- ===== src/Database/Containment.antt =====
-- Locations and contents agree, and a change of location keeps that.
use stunt.Prelude.{
  some_eq, ◌≡◌, refl, sym, ap, ◌∙◌, Bool, true, false, Option, none, some, List, arith,
  if◌then◌else◌, Bool-cases, Option-cases, inl, inr,
}
use mathlib.Core.Option
use stunt.Prelude.Int.{ℤ, eqb_ℤ, eqb_ℤ_iff, eqb_refl, eqb_eq, eqb_sym}
use stunt.Lists.{setadd, setremove}
use stunt.Lists.Sets.{contained, one_if, count-setadd-setremove}
use stunt.Database.Store.{Object, Db, find, valid}
use stunt.Database.Store.Laws.{find-modify}
use stunt.Database.Location.{
  db_object_location, guarded, relocate, remove_content, add_content, set_location,
  db_change_location,
}

abbrev pub located : Option Object → ℤ → Bool
located none l = false
located (some o) l = eqb_ℤ o.location l

-- The contents of every object are the objects that are located in it, each once.
pub record IsPlaced (db : Db) : Type 0 where
  pub contents_located :
      (l : ℤ) (x : Object)
      → find db l ≡ some x
      → (oid : ℤ) → contained oid x.contents ≡ one_if (located (find db oid) l)

invalid_none : (db : Db) (a b : ℤ) → valid db a ≡ false → eqb_ℤ a b ≡ true → find db b ≡ none
unfolding valid
invalid_none db a b n e = elim (Option-cases (find db b)) [
  | inl h ↦ h
  | inr (x, h) ↦ ground (arith, ap (λ t. find db t) ((eqb_ℤ_iff a b).0 e))
]

-- What `relocate` leaves of an object, by whether it is the object that moves, the new location or
-- the old one.
pub moved_contents : Bool → Bool → ℤ → List ℤ → List ℤ
moved_contents is_new is_old oid c =
    let kept = if is_old then setremove eqb_ℤ c oid else c in
    if is_new then setadd eqb_ℤ 1 kept oid else kept

abbrev pub moved_by : Bool → Bool → Bool → ℤ → ℤ → Object → Object
moved_by moves is_new is_old oid new x = record x {
  contents = moved_contents is_new is_old oid x.contents;
  location = if moves then new else x.location;
}

abbrev pub moved : ℤ → ℤ → ℤ → ℤ → Object → Object
moved oid old new l = moved_by (eqb_ℤ oid l) (eqb_ℤ new l) (eqb_ℤ old l) oid new

-- A guarded assignment, seen from any number.
find-guarded :
    (db : Db) (a b : ℤ) (f : Object → Object)
    → find (guarded db a f) b ≡ (if eqb_ℤ a b then Option.map f (find db b) else find db b)
find-guarded db a b f = elim (Bool-cases (valid db a)) [
  | inl v ↦ rw v (find-modify db a b f)
  | inr n ↦ rw n (elim (Bool-cases (eqb_ℤ a b)) [
    | inl same ↦ rw (same, invalid_none db a b n same)
    | inr other ↦ rw other
  ])
]

abbrev when : Bool → (Object → Object) → Option Object → Option Object
when b f o = if b then Option.map f o else o

when_moved :
    (a b c : Bool) (oid new : ℤ) (o : Option Object)
    → when a (set_location new) (when b (add_content oid) (when c (remove_content oid) o))
      ≡ Option.map (moved_by a b c oid new) o
unfolding moved_contents
when_moved a b c oid new none = ground arith
when_moved true true true oid new (some x) = refl
when_moved true true false oid new (some x) = refl
when_moved true false true oid new (some x) = refl
when_moved true false false oid new (some x) = refl
when_moved false true true oid new (some x) = refl
when_moved false true false oid new (some x) = refl
when_moved false false true oid new (some x) = refl
when_moved false false false oid new (some x) = refl

pub find-relocate :
    (db : Db) (oid old new l : ℤ)
    → find (relocate db oid old new) l ≡ Option.map (moved oid old new l) (find db l)
unfolding relocate
find-relocate db oid old new l =
    rw
      (
        find-modify (guarded (guarded db old (remove_content oid)) new (add_content oid)) oid l
            (set_location new),
        find-guarded (guarded db old (remove_content oid)) new l (add_content oid),
        find-guarded db old l (remove_content oid),
      )
      (when_moved (eqb_ℤ oid l) (eqb_ℤ new l) (eqb_ℤ old l) oid new (find db l))

contained-moved_contents :
    (is_new is_old : Bool) (oid w : ℤ) (c : List ℤ)
    → contained oid c ≡ one_if is_old
    → contained w (moved_contents is_new is_old oid c)
      ≡ (if eqb_ℤ w oid then one_if is_new else contained w c)
unfolding moved_contents
contained-moved_contents is_new is_old oid w c h =
    count-setadd-setremove eqb_ℤ eqb_refl eqb_eq oid w c is_old is_new h

-- Where an object is located after the change.
located-moved :
    (db : Db) (oid old new w l : ℤ) (o : Object)
    → find db oid ≡ some o
    → located (Option.map (moved oid old new w) (find db w)) l
      ≡ (if eqb_ℤ w oid then eqb_ℤ new l else located (find db w) l)
located-moved db oid old new w l o h = elim (Bool-cases (eqb_ℤ w oid)) [
  | inl me ↦ rw (me, eqb_eq w oid me, h, eqb_refl oid)
  | inr other ↦
      rw (other, sym (eqb_sym w oid) ∙ other) (stays (find db w) (eqb_ℤ new w) (eqb_ℤ old w))
]
  where
    stays :
        (x : Option Object) (b c : Bool)
        → located (Option.map (moved_by false b c oid new) x) l ≡ located x l
    stays none b c = refl
    stays (some x) b c = refl

distribute : (a b c : Bool) → (if a then one_if b else one_if c) ≡ one_if (if a then b else c)
distribute true b c = refl
distribute false b c = refl

relocate-IsPlaced :
    (db : Db) (oid new : ℤ) (o : Object)
    → find db oid ≡ some o
    → IsPlaced db
    → IsPlaced (relocate db oid o.location new)
relocate-IsPlaced db oid new o h p = record {
  contents_located =
      λ l x' e w. after l x' w (find db l) refl (sym (find-relocate db oid o.location new l) ∙ e);
}
  where
    before :
        (l : ℤ) (x : Object) (w : ℤ)
        → find db l ≡ some x
        → contained w x.contents ≡ one_if (located (find db w) l)
    before l x w f = p.contents_located l x f w

    after :
        (l : ℤ) (x' : Object) (w : ℤ) (x : Option Object)
        → find db l ≡ x
        → Option.map (moved oid o.location new l) x ≡ some x'
        → contained w x'.contents ≡ one_if (located (find (relocate db oid o.location new) w) l)
    after l x' w none f e = cc
    after l x' w (some x) f e =
        rw (find-relocate db oid o.location new w, located-moved db oid o.location new w l o h)
          (ap (λ (t : Object). contained w t.contents) (sym (some_eq e))
            ∙ contained-moved_contents (eqb_ℤ new l) (eqb_ℤ o.location l) oid w x.contents
                (rw h at (before l x oid f))
            ∙ rw (before l x w f) (distribute (eqb_ℤ w oid) (eqb_ℤ new l) (located (find db w) l)))

no_object : (db : Db) (oid : ℤ) → valid db oid ≡ true → find db oid ≡ none → ⊥
unfolding valid
no_object db oid v h = ground arith

-- `db_change_location` keeps locations and contents in agreement: it answers for every valid object of a database
-- where they agree,
-- and afterwards the contents of each object are again the objects that are located in it, once.
pub db_change_location-IsPlaced :
    (db : Db) (oid new : ℤ)
    → valid db oid ≡ true
    → IsPlaced db
    → (db' : Db) × (db_change_location db oid new ≡ some db')
      × IsPlaced db'
      × (db_object_location db' oid ≡ some new)
unfolding db_change_location db_object_location
db_change_location-IsPlaced db oid new v p = elim (Option-cases (find db oid)) [
  | inl gone ↦ absurd (no_object db oid v gone)
  | inr (o, h) ↦ (
    relocate db oid o.location new,
    rw (h, db_change_location),
    relocate-IsPlaced db oid new o h p,
    rw (find-relocate db oid o.location new oid, h, eqb_refl oid),
  )
]
