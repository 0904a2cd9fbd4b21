-- ===== src/Database/Users.antt =====
-- db_objects.cc: the flags of objects, and the list of the users.
pub mod Listed
use stunt.Prelude.{
  ℕ, ◌+◌, ◌-◌, ◌/◌, ◌%◌, ◌^◌, Bool, true, false, ◌&&◌, ◌||◌, Option, none, some, ◌==◌,
  if◌then◌else◌,
}
use mathlib.Core.Option
use stunt.Prelude.Int.{ℤ, eqb_ℤ}
use stunt.Lists.{setadd, setremove}
use stunt.Database.Store.{Object, Db, find, modify}

-- `db_object_flag`
pub data Flag : Type 0 where
  user programmer wizard obsolete_1 read write obsolete_2 fertile anonymous invalid recycled : Flag

abbrev pub bit : Flag → ℕ
bit user = 0
bit programmer = 1
bit wizard = 2
bit obsolete_1 = 3
bit read = 4
bit write = 5
bit obsolete_2 = 6
bit fertile = 7
bit anonymous = 8
bit invalid = 9
bit recycled = 10

abbrev pub is_user_flag : Flag → Bool
is_user_flag user = true
is_user_flag _ = false

-- `(o->flags & (1 << f)) != 0`
abbrev pub has_bit : ℕ → ℕ → Bool
has_bit flags f = flags / 2 ^ f % 2 == 1

unfoldable pub dbpriv_object_has_flag : Object → Flag → Bool
dbpriv_object_has_flag o f = has_bit o.flags (bit f)

-- `o->flags |= (1 << f)`: a bit that is 0 is added.
unfoldable pub dbpriv_set_object_flag : Flag → Object → Object
dbpriv_set_object_flag f o = record o {
  flags = if has_bit o.flags (bit f) then o.flags else o.flags + 2 ^ bit f;
}

-- `o->flags &= ~(1 << f)`: a bit that is 1 is subtracted.
unfoldable pub dbpriv_clear_object_flag : Flag → Object → Object
dbpriv_clear_object_flag f o = record o {
  flags = if has_bit o.flags (bit f) then o.flags - 2 ^ bit f else o.flags;
}

abbrev pub has_flag : Flag → Option Object → Bool
has_flag f none = false
has_flag f (some o) = dbpriv_object_has_flag o f

-- `none` is the dereference of a NULL pointer.
unfoldable pub db_object_has_flag : Db → ℤ → Flag → Option Bool
db_object_has_flag db oid f = Option.map (λ o. dbpriv_object_has_flag o f) (find db oid)

unfoldable pub db_set_object_flag : Db → ℤ → Flag → Option Db
db_set_object_flag db oid f =
    let flagged = modify db oid (dbpriv_set_object_flag f) in
    let listed = setadd eqb_ℤ 1 db.all_users oid in
    elim (find db oid) [
      | none ↦ none
      | some o ↦
          some (record flagged { all_users = if is_user_flag f then listed else db.all_users })
    ]

unfoldable pub db_clear_object_flag : Db → ℤ → Flag → Option Db
db_clear_object_flag db oid f =
    let flagged = modify db oid (dbpriv_clear_object_flag f) in
    let listed = setremove eqb_ℤ db.all_users oid in
    elim (find db oid) [
      | none ↦ none
      | some o ↦
          some (record flagged { all_users = if is_user_flag f then listed else db.all_users })
    ]

unfoldable pub is_wizard : Db → ℤ → Bool
is_wizard db oid = has_flag wizard (find db oid)

unfoldable pub is_programmer : Db → ℤ → Bool
is_programmer db oid = has_flag programmer (find db oid)

unfoldable pub is_user : Db → ℤ → Bool
is_user db oid = has_flag user (find db oid)
