-- ===== src/Database/Users/Listed.antt =====
-- The list of the users holds exactly the objects that have the user flag.
use stunt.Prelude.{
  ◌≡◌, refl, ap, Bool, true, ◌&&◌, ◌||◌, not, some, List, arith, if◌then◌else◌, Bool-cases, inl,
  inr,
}
use stunt.Prelude.Int.{ℤ, pos, negsuc, eqb_ℤ, eqb_refl, eqb_eq, eqb_sym}
use stunt.Lists.{setadd, setremove}
use stunt.Lists.Sets.{count-setremove, same-IsCongruent, count, contained, one_if, count-setadd}
use stunt.Database.Store.{Object, Db, find, modify}
use stunt.Database.Store.Laws.{find-modify}
use stunt.Database.Users.{
  Flag, user, is_user_flag, dbpriv_object_has_flag, dbpriv_set_object_flag,
  dbpriv_clear_object_flag, db_set_object_flag, db_clear_object_flag, is_user,
}

pub record IsListed (db : Db) : Type 0 where
  pub listed : (oid : ℤ) → contained oid db.all_users ≡ one_if (is_user db oid)

has_user-set :
    (f : Flag) (o : Object)
    → dbpriv_object_has_flag (dbpriv_set_object_flag f o) user
      ≡ (is_user_flag f || dbpriv_object_has_flag o user)
unfolding dbpriv_object_has_flag dbpriv_set_object_flag
has_user-set user o = ground arith
has_user-set _ o = ground arith

has_user-clear :
    (f : Flag) (o : Object)
    → dbpriv_object_has_flag (dbpriv_clear_object_flag f o) user
      ≡ (not (is_user_flag f) && dbpriv_object_has_flag o user)
unfolding dbpriv_object_has_flag dbpriv_clear_object_flag
has_user-clear user o = ground arith
has_user-clear _ o = ground arith

find-all_users :
    (db : Db) (users : List ℤ) (oid : ℤ) → find (record db { all_users = users }) oid ≡ find db oid
unfolding find
find-all_users db users (pos n) = refl
find-all_users db users (negsuc n) = refl

all_users-modify :
    (db : Db) (oid : ℤ) (f : Object → Object) → (modify db oid f).all_users ≡ db.all_users
unfolding modify
all_users-modify db (pos n) f = refl
all_users-modify db (negsuc n) f = refl

-- Who is a user after one object's flag has changed.
is_user-modify :
    (db : Db) (users : List ℤ) (oid w : ℤ) (g : Object → Object) (o : Object)
    → find db oid ≡ some o
    → is_user (record (modify db oid g) { all_users = users }) w
      ≡ (if eqb_ℤ oid w then dbpriv_object_has_flag (g o) user else is_user db w)
unfolding is_user
is_user-modify db users oid w g o h =
    rw (find-all_users (modify db oid g) users w, find-modify db oid w g)
      (elim (Bool-cases (eqb_ℤ oid w)) [
        | inl me ↦ rw (me, ← eqb_eq oid w me, h)
        | inr other ↦ rw other
      ])

is_user-find :
    (db : Db) (oid : ℤ) (o : Object)
    → find db oid ≡ some o
    → is_user db oid ≡ dbpriv_object_has_flag o user
unfolding is_user
is_user-find db oid o h = rw h

-- One added entry, when the flag is the user flag, or none.
listed-setadd :
    (eq : ℤ → ℤ → Bool) (xs : List ℤ) (oid w : ℤ) (adds was now : Bool)
    → ((a b : ℤ) → eq a b ≡ true → a ≡ b)
    → ((a : ℤ) → eq a a ≡ true)
    → count eq oid xs ≡ one_if was
    → count eq w xs ≡ one_if now
    → count eq w (if adds then setadd eq 1 xs oid else xs)
      ≡ one_if (if eq w oid then adds || was else now)
listed-setadd eq xs oid w adds was now same eq_refl h h' = elim (Bool-cases (eq w oid)) [
  | inl me ↦ rw me (
      ground
        (arith, rw me at (count-setadd eq 1 oid w xs), ap (λ a. count eq a xs) (same w oid me)))
  | inr other ↦ rw other (ground (arith, rw other at (count-setadd eq 1 oid w xs)))
]

listed-setremove :
    (eq : ℤ → ℤ → Bool) (xs : List ℤ) (oid w : ℤ) (takes was now : Bool)
    → ((a b : ℤ) → eq a b ≡ true → a ≡ b)
    → ((a : ℤ) → eq a a ≡ true)
    → count eq oid xs ≡ one_if was
    → count eq w xs ≡ one_if now
    → count eq w (if takes then setremove eq xs oid else xs)
      ≡ one_if (if eq w oid then not takes && was else now)
listed-setremove eq xs oid w takes was now same eq_refl h h' = elim (Bool-cases (eq w oid)) [
  | inl me ↦ rw me (
      ground (
        arith,
        rw me at (count-setremove eq (same-IsCongruent eq same) oid w xs),
        ap (λ a. count eq a xs) (same w oid me),
      ))
  | inr other ↦
      rw other
        (ground (arith, rw other at (count-setremove eq (same-IsCongruent eq same) oid w xs)))
]

module _ (db : Db) (f : Flag) (oid : ℤ) (o : Object) (h : find db oid ≡ some o)
    (l : IsListed db) where
  set-IsListed : IsListed (record (modify db oid (dbpriv_set_object_flag f)) {
    all_users = if is_user_flag f then setadd eqb_ℤ 1 db.all_users oid else db.all_users;
  })
  set-IsListed = record {
    listed = λ w.
        rw
          (
            is_user-modify db _ oid w (dbpriv_set_object_flag f) o h,
            has_user-set f o,
            ← is_user-find db oid o h,
            eqb_sym oid w,
          )
          (listed-setadd eqb_ℤ db.all_users oid w (is_user_flag f) (is_user db oid) (is_user db w)
            eqb_eq eqb_refl (l.listed oid) (l.listed w));
  }

  clear-IsListed : IsListed (record (modify db oid (dbpriv_clear_object_flag f)) {
    all_users = if is_user_flag f then setremove eqb_ℤ db.all_users oid else db.all_users;
  })
  clear-IsListed = record {
    listed = λ w.
        rw
          (
            is_user-modify db _ oid w (dbpriv_clear_object_flag f) o h,
            has_user-clear f o,
            ← is_user-find db oid o h,
            eqb_sym oid w,
          )
          (listed-setremove eqb_ℤ db.all_users oid w (is_user_flag f) (is_user db oid)
            (is_user db w) eqb_eq eqb_refl (l.listed oid) (l.listed w));
  }

-- In a database whose list of the users holds exactly the users, each once: setting and clearing any
-- flag of an object that is there never fails, sets or clears the answer of is_user for the user flag of that object alone, and leaves in the list of the users exactly the
-- objects that are users, each once.
pub db_set_object_flag-IsListed :
    (db : Db) (f : Flag) (oid : ℤ) (o : Object)
    → find db oid ≡ some o
    → IsListed db
    → ((db' : Db) × (db_set_object_flag db oid f ≡ some db')
        × IsListed db'
        × ((w : ℤ)
            → is_user db' w
              ≡ (if eqb_ℤ oid w then is_user_flag f || is_user db oid else is_user db w)))
      × ((db' : Db) × (db_clear_object_flag db oid f ≡ some db')
          × IsListed db'
          × ((w : ℤ)
              → is_user db' w
                ≡ (if eqb_ℤ oid w then not (is_user_flag f) && is_user db oid else is_user db w)))
unfolding db_set_object_flag db_clear_object_flag
db_set_object_flag-IsListed db f oid o h l = (
  (
    _,
    rw (h, db_set_object_flag),
    set-IsListed db f oid o h l,
    λ w. rw (
      is_user-modify db _ oid w (dbpriv_set_object_flag f) o h,
      has_user-set f o,
      is_user-find db oid o h,
    ),
  ),
  (
    _,
    rw (h, db_clear_object_flag),
    clear-IsListed db f oid o h l,
    λ w. rw (
      is_user-modify db _ oid w (dbpriv_clear_object_flag f) o h,
      has_user-clear f o,
      is_user-find db oid o h,
    ),
  ),
)
