-- ===== src/Database/Location.antt =====
-- db_objects.cc: the location and the contents of objects.
use stunt.Prelude.{Option, none, some, length, ℕ, if◌then◌else◌}
use mathlib.Core.Option
use stunt.Prelude.Int.{ℤ, eqb_ℤ}
use stunt.Lists.{setadd, setremove}
use stunt.Database.Store.{Object, Db, find, valid, modify}

-- `none` is the dereference of a NULL pointer.
unfoldable pub db_object_location : Db → ℤ → Option ℤ
db_object_location db oid = Option.map (λ o. o.location) (find db oid)

unfoldable pub db_count_contents : Db → ℤ → Option ℕ
db_count_contents db oid = Option.map (λ o. length o.contents) (find db oid)

-- The assignments to `contents` and to `location`. A list of contents is held by its object alone.
abbrev pub remove_content : ℤ → Object → Object
remove_content me o = record o { contents = setremove eqb_ℤ o.contents me }

abbrev pub add_content : ℤ → Object → Object
add_content me o = record o { contents = setadd eqb_ℤ 1 o.contents me }

abbrev pub set_location : ℤ → Object → Object
set_location where_ o = record o { location = where_ }

-- `if (valid(oid)) objects[oid]-> ...`
abbrev pub guarded : Db → ℤ → (Object → Object) → Db
guarded db oid f = if valid db oid then modify db oid f else db

-- The steps of `db_change_location` once the old location is read.
unfoldable pub relocate : Db → ℤ → ℤ → ℤ → Db
relocate db oid old_location new_location =
    let removed = guarded db old_location (remove_content oid) in
    let added = guarded removed new_location (add_content oid) in
    modify added oid (set_location new_location)

unfoldable pub db_change_location : Db → ℤ → ℤ → Option Db
db_change_location db oid new_location = elim (db_object_location db oid) [
  | none ↦ none
  | some old_location ↦ some (relocate db oid old_location new_location)
]
