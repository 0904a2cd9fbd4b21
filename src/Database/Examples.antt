-- ===== src/Database/Examples.antt =====
-- The operations on the database, on two rooms and a thing.
use stunt.Prelude.{
  some_eq, ℕ, zero, suc, ◌<◌, ◌≡◌, refl, sym, ap, ◌∙◌, true, false, not, ◌||◌, ◌&&◌, some, [], ◌∷◌,
  arith, if◌then◌else◌,
}
use stunt.Prelude.Int.{ℤ, pos, negsuc, eqb_ℤ}
use stunt.Lists.Sets.{contained, one_if, count}
use stunt.Value.{int, list, nil, cons, e_verbnf}
use stunt.Value.Sample.{whole_floats}
use stunt.Database.Store.{Object, Db, new_object, find, valid, db_create_object}
use stunt.Database.Store.Laws.{find-db_create_object}
use stunt.Database.Location.{db_object_location, db_change_location}
use stunt.Database.Containment.{IsPlaced, located, db_change_location-IsPlaced}
use stunt.Database.Nesting.{IsNested, rooted}
use stunt.Database.Move.{CallVerb, do_move}
use stunt.Database.Move.Keeps.{IsKept, do_move-IsKept}
use stunt.Database.Users.{
  user, is_user, is_user_flag, dbpriv_object_has_flag, db_set_object_flag, db_clear_object_flag,
}
use stunt.Database.Users.Listed.{IsListed, db_set_object_flag-IsListed}
use stunt.Database.Parents.{check_for_duplicates}
use stunt.Database.Parents.Duplicates.{check_for_duplicates_misses}
use stunt.Value.Equality.{equality}

abbrev room : Object
room = record (new_object (pos 0)) { contents = pos 2 ∷ [] }

abbrev empty_room : Object
empty_room = new_object (pos 1)

abbrev thing : Object
thing = record (new_object (pos 2)) { location = pos 0 }

abbrev house : Db
house = record {
  objects = some room ∷ some empty_room ∷ some thing ∷ [];
  num_objects = 3;
  nonce = 0;
  all_users = [];
  array_size = 4096;
}

in_room : (oid : ℤ) → contained oid (pos 2 ∷ []) ≡ one_if (located (find house oid) (pos 0))
unfolding count find
in_room (pos zero) = refl
in_room (pos (suc zero)) = refl
in_room (pos (suc (suc zero))) = refl
in_room (pos (suc (suc (suc n)))) = ground arith
in_room (negsuc n) = ground arith

in_empty_room : (oid : ℤ) → contained oid [] ≡ one_if (located (find house oid) (pos 1))
unfolding count find
in_empty_room (pos zero) = refl
in_empty_room (pos (suc zero)) = refl
in_empty_room (pos (suc (suc zero))) = refl
in_empty_room (pos (suc (suc (suc n)))) = refl
in_empty_room (negsuc n) = refl

in_thing : (oid : ℤ) → contained oid [] ≡ one_if (located (find house oid) (pos 2))
unfolding count find
in_thing (pos zero) = refl
in_thing (pos (suc zero)) = refl
in_thing (pos (suc (suc zero))) = refl
in_thing (pos (suc (suc (suc n)))) = refl
in_thing (negsuc n) = refl

house_contents :
    (l : ℤ) (x : Object)
    → find house l ≡ some x
    → (oid : ℤ) → contained oid x.contents ≡ one_if (located (find house oid) l)
unfolding find
house_contents (pos zero) x e oid =
    ap (λ (o : Object). contained oid o.contents) (sym (some_eq e)) ∙ in_room oid
house_contents (pos (suc zero)) x e oid =
    ap (λ (o : Object). contained oid o.contents) (sym (some_eq e)) ∙ in_empty_room oid
house_contents (pos (suc (suc zero))) x e oid =
    ap (λ (o : Object). contained oid o.contents) (sym (some_eq e)) ∙ in_thing oid
house_contents (pos (suc (suc (suc n)))) x e oid = cc
house_contents (negsuc n) x e oid = cc

house-IsPlaced : IsPlaced house
house-IsPlaced = record { contents_located = house_contents }

house_depth :
    (oid l : ℤ) → db_object_location house oid ≡ some l → (n : ℕ) × (rooted house n oid ≡ true)
unfolding db_object_location find rooted
house_depth (pos zero) l e = (1, refl)
house_depth (pos (suc zero)) l e = (1, refl)
house_depth (pos (suc (suc zero))) l e = (2, refl)
house_depth (pos (suc (suc (suc n)))) l e = cc
house_depth (negsuc n) l e = cc

house-IsNested : IsNested house
house-IsNested = record { nested = house_depth }

house_users : (oid : ℤ) → contained oid [] ≡ one_if (is_user house oid)
unfolding count find is_user dbpriv_object_has_flag
house_users (pos zero) = refl
house_users (pos (suc zero)) = refl
house_users (pos (suc (suc zero))) = refl
house_users (pos (suc (suc (suc n)))) = refl
house_users (negsuc n) = refl

house-IsListed : IsListed house
house-IsListed = record { listed = house_users }

-- No verb is defined.
abbrev no_verbs : CallVerb
no_verbs db oid hook what = e_verbnf

do_move-IsKept_example :
    (n : ℕ) × ((fuel : ℕ)
      → n < fuel
      → IsKept house
          (pos 2)
          (pos 1)
          (do_move no_verbs fuel house (pos 2) (pos 1) (pos 0) whole_floats 2 (int (pos 1))))
do_move-IsKept_example =
    do_move-IsKept no_verbs whole_floats house (pos 2) (pos 1) (pos 0) (int (pos 1)) 2 (omega arith)
      (omega arith) house-IsPlaced house-IsNested

house-valid : valid house (pos 2) ≡ true
unfolding valid find
house-valid = refl

db_change_location-IsPlaced_example :
    (db' : Db) × (db_change_location house (pos 2) (pos 1) ≡ some db')
    × IsPlaced db'
    × (db_object_location db' (pos 2) ≡ some (pos 1))
db_change_location-IsPlaced_example =
    db_change_location-IsPlaced house (pos 2) (pos 1) house-valid house-IsPlaced

house-thing : find house (pos 2) ≡ some thing
unfolding find
house-thing = refl

db_set_object_flag-IsListed_example :
    ((db' : Db) × (db_set_object_flag house (pos 2) user ≡ some db')
      × IsListed db'
      × ((w : ℤ)
          → is_user db' w ≡ (
              if eqb_ℤ (pos 2) w
              then is_user_flag user || is_user house (pos 2)
              else is_user house w)))
    × ((db' : Db) × (db_clear_object_flag house (pos 2) user ≡ some db')
        × IsListed db'
        × ((w : ℤ)
            → is_user db' w ≡ (
                if eqb_ℤ (pos 2) w
                then not (is_user_flag user) && is_user house (pos 2)
                else is_user house w)))
db_set_object_flag-IsListed_example =
    db_set_object_flag-IsListed house user (pos 2) thing house-thing house-IsListed

find-db_create_object_example :
    find (db_create_object house).0 (pos 3)
    ≡ (if eqb_ℤ (pos 3) (pos 3) then some (new_object (pos 3)) else find house (pos 3))
find-db_create_object_example = find-db_create_object house (pos 3)

different : equality whole_floats true (int (pos 1)) (int (pos 2)) ≡ some false
unfolding equality
different = refl

check_for_duplicates_misses_example :
    check_for_duplicates whole_floats
      (list (cons (int (pos 1)) (cons (int (pos 2)) (cons (int (pos 2)) nil))))
    ≡ some true
check_for_duplicates_misses_example =
    check_for_duplicates_misses whole_floats (int (pos 1)) (int (pos 2)) different
