-- ===== src/Database/Store.antt =====
-- db_private.h: `struct Object`; db_objects.cc: the table of objects, and how it grows.
pub mod Laws
use stunt.Prelude.{
  ℕ, zero, suc, ◌+◌, ◌-◌, ◌*◌, ◌≤◌, ◌<◌, ◌≡◌, refl, Bool, true, false, Option, none, some, List, [],
  ◌∷◌, ◌++◌, arith, length, replicate, ltb, leb, ◌==◌, if◌then◌else◌,
}
use mathlib.Core.Option
use stunt.Prelude.Int.{ℤ, pos, negsuc, eqb_ℤ}
use stunt.Text.Case.{Text}
use stunt.Value.{Var}

pub record Pval : Type 0 where
  pub var : Var
  pub owner : ℤ
  pub perms : ℕ

pub record Verbdef : Type 0 where
  pub name : Text
  pub owner : ℤ
  pub perms : ℕ
  pub prep : ℤ

-- What `parents` can be: one object number, NOTHING among them, or a list of object numbers.
pub data Parents : Type 0 where
  one : ℤ → Parents
  many : List ℤ → Parents

-- `struct Object`. A list or a value of object numbers is the numbers alone.
pub record Object : Type 0 where
  pub id : ℤ
  pub owner : ℤ
  pub name : Text
  pub flags : ℕ
  pub location : ℤ
  pub contents : List ℤ
  pub parents : Parents
  pub children : List ℤ
  pub propval : List Pval
  pub verbdefs : List Verbdef
  pub propdefs : List Text
  pub nonce : ℕ

abbrev pub nothing : ℤ
nothing = negsuc 0

-- `objects`, an array of `max_objects` pointers, with `num_objects`, `nonce`, `all_users`, and the
-- size of the bit array.
pub record Db : Type 0 where
  pub objects : List (Option Object)
  pub num_objects : ℕ
  pub nonce : ℕ
  pub all_users : List ℤ
  pub array_size : ℕ

module _ {ℓ} {A : Type ℓ} where
  abbrev pub at : List (Option A) → ℕ → Option A
  at [] i = none
  at (x ∷ xs) zero = x
  at (x ∷ xs) (suc i) = at xs i

  abbrev pub update : List (Option A) → ℕ → (A → A) → List (Option A)
  update [] i f = []
  update (x ∷ xs) zero f = Option.map f x ∷ xs
  update (x ∷ xs) (suc i) f = x ∷ update xs i f

  abbrev pub put : List (Option A) → ℕ → Option A → List (Option A)
  put [] i v = []
  put (x ∷ xs) zero v = v ∷ xs
  put (x ∷ xs) (suc i) v = x ∷ put xs i v

-- `dbpriv_find_object`: NULL out of the table.
unfoldable pub find : Db → ℤ → Option Object
find db (negsuc n) = none
find db (pos n) = at db.objects n

unfoldable pub valid : Db → ℤ → Bool
valid db oid = elim (find db oid) [ none ↦ false | some o ↦ true ]

-- An assignment through `objects[oid]->`.
unfoldable pub modify : Db → ℤ → (Object → Object) → Db
modify db (negsuc n) f = db
modify db (pos n) f = record db { objects = update db.objects n f }

unfoldable pub db_last_used_objid : Db → ℤ
db_last_used_objid db = elim db.num_objects [ zero ↦ negsuc 0 | suc n ↦ pos n ]

-- `for (size = start; size <= n; size *= 2);` on fuel.
pub table_size : ℕ → ℕ → ℕ → ℕ
table_size zero size n = size
table_size (suc fuel) size n =
    let rest = table_size fuel (size * 2) n in if leb size n then rest else size

-- `extend`: the table is made, or copied into a larger one; the rest of it is NULL.
pub grow_table : Db → ℕ → Db
grow_table db size =
    if ltb (length db.objects) size
    then record db { objects = db.objects ++ replicate (size - length db.objects) none }
    else db

pub grow_bits : Db → ℕ → Db
grow_bits db size = if ltb db.array_size size then record db { array_size = size } else db

unfoldable pub extend : Db → ℕ → Db
extend db new_objects =
    grow_bits (grow_table db (table_size new_objects 128 new_objects))
      (table_size new_objects 4096 new_objects)

unfoldable pub ensure_new_object : Db → Db
ensure_new_object db = extend db (db.num_objects + 1)

-- `dbpriv_new_object` and `db_init_object`. The owner and the nonce are set later, and are 0 here.
abbrev pub new_object : ℤ → Object
new_object id = record {
  id = id;
  owner = pos 0;
  name = [];
  flags = 0;
  location = nothing;
  contents = [];
  parents = one nothing;
  children = [];
  propval = [];
  verbdefs = [];
  propdefs = [];
  nonce = 0;
}

unfoldable pub db_create_object : Db → Db × ℤ
db_create_object db =
    let grown = ensure_new_object db in
    let oid = db.num_objects in
    (
      record grown {
        objects = put grown.objects oid (some (new_object (pos oid)));
        num_objects = oid + 1;
      },
      pos oid,
    )
