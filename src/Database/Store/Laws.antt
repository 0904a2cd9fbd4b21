-- ===== src/Database/Store/Laws.antt =====
-- What the table of objects holds after an assignment, and after an object is made.
use stunt.Prelude.{
  ℕ, zero, suc, ◌+◌, ◌-◌, ◌*◌, ◌≤◌, ◌<◌, ◌≡◌, refl, Option, none, some, List, [], ◌∷◌, ◌++◌, arith,
  length, length-append, length-replicate, replicate, ltb, ◌==◌, if◌then◌else◌, Bool-cases, inl,
  inr,
}
use mathlib.Core.Option
use native.Mathlib.Nat.{le_trans}
use stunt.Prelude.Int.{ℤ, pos, negsuc, eqb_ℤ}
use stunt.Database.Store.{
  Object, Db, at, update, put, find, modify, table_size, grow_table, grow_bits, extend,
  ensure_new_object, new_object, db_create_object,
}

-- What the table holds after an assignment.
pub at-update {ℓ} :
    {A : Type ℓ} (xs : List (Option A)) (i j : ℕ) (f : A → A)
    → at (update xs i f) j ≡ (if i == j then Option.map f (at xs j) else at xs j)
at-update [] i j f = ground arith
at-update (x ∷ xs) zero zero f = refl
at-update (x ∷ xs) zero (suc j) f = ground arith
at-update (x ∷ xs) (suc i) zero f = ground arith
at-update (x ∷ xs) (suc i) (suc j) f = ground (arith, at-update xs i j f)

pub find-modify :
    (db : Db) (a b : ℤ) (f : Object → Object)
    → find (modify db a f) b ≡ (if eqb_ℤ a b then Option.map f (find db b) else find db b)
unfolding find modify
find-modify db (negsuc n) (negsuc m) f = ground arith
find-modify db (negsuc n) (pos m) f = ground arith
find-modify db (pos n) (negsuc m) f = ground arith
find-modify db (pos n) (pos m) f = ground (arith, at-update db.objects n m f)

at-put {ℓ} :
    {A : Type ℓ} (xs : List (Option A)) (i j : ℕ) (v : Option A)
    → i < length xs
    → at (put xs i v) j ≡ (if i == j then v else at xs j)
at-put [] i j v h = absurd (omega arith)
at-put (x ∷ xs) zero zero v h = refl
at-put (x ∷ xs) zero (suc j) v h = ground arith
at-put (x ∷ xs) (suc i) zero v h = ground arith
at-put (x ∷ xs) (suc i) (suc j) v h = ground (arith, at-put xs i j v)

at-replicate {ℓ} : {A : Type ℓ} (n i : ℕ) → at {A = A} (replicate n none) i ≡ none
at-replicate zero i = refl
at-replicate (suc n) zero = refl
at-replicate (suc n) (suc i) = at-replicate n i

at-append_none {ℓ} :
    {A : Type ℓ} (xs : List (Option A)) (n i : ℕ) → at (xs ++ replicate n none) i ≡ at xs i
at-append_none [] n i = at-replicate n i
at-append_none (x ∷ xs) n zero = refl
at-append_none (x ∷ xs) n (suc i) = at-append_none xs n i

-- The fuel of `table_size` is enough: the loop ends with a size above the number.
table_size_above : (fuel size n : ℕ) → 0 < size → n < size + fuel → n < table_size fuel size n
unfolding table_size
table_size_above zero size n p h = omega arith
table_size_above (suc fuel) size n p h = ground (arith, table_size_above fuel (size * 2) n)

objects-grow_bits : (db : Db) (n : ℕ) → (grow_bits db n).objects ≡ db.objects
unfolding grow_bits
objects-grow_bits db n = ground arith

at-grow_table : (db : Db) (n i : ℕ) → at (grow_table db n).objects i ≡ at db.objects i
unfolding grow_table
at-grow_table db n i = elim (Bool-cases (ltb (length db.objects) n)) [
  | inl grows ↦ rw grows (at-append_none db.objects (n - length db.objects) i)
  | inr stays ↦ rw stays
]

length-grow_table : (db : Db) (n : ℕ) → n ≤ length (grow_table db n).objects
unfolding grow_table
length-grow_table db n = elim (Bool-cases (ltb (length db.objects) n)) [
  | inl grows ↦
      rw
        (
          grows,
          length-append db.objects (replicate (n - length db.objects) none),
          length-replicate {A = Option Object} (n - length db.objects) none,
        )
        (ground arith)
  | inr stays ↦ rw stays (ground arith)
]

at-extend : (db : Db) (n i : ℕ) → at (extend db n).objects i ≡ at db.objects i
unfolding extend
at-extend db n i =
    rw (objects-grow_bits (grow_table db (table_size n 128 n)) (table_size n 4096 n))
      (at-grow_table db (table_size n 128 n) i)

length-extend : (db : Db) (n : ℕ) → n < length (extend db n).objects
unfolding extend
length-extend db n =
    rw (objects-grow_bits (grow_table db (table_size n 128 n)) (table_size n 4096 n)) (
      le_trans (table_size_above n 128 n (omega arith) (omega arith))
        (length-grow_table db (table_size n 128 n)))

-- `db_create_object` gives the next number to a new object that lies nowhere and has no kin, and
-- leaves every other object as it was.
pub find-db_create_object :
    (db : Db) (oid : ℤ)
    → find (db_create_object db).0 oid ≡ (
        if eqb_ℤ (pos db.num_objects) oid
        then some (new_object (pos db.num_objects))
        else find db oid)
unfolding find db_create_object ensure_new_object
find-db_create_object db (negsuc n) = ground arith
find-db_create_object db (pos n) =
    rw
      (
        at-put (extend db (db.num_objects + 1)).objects db.num_objects n
            (some (new_object (pos db.num_objects)))
            (omega (arith, length-extend db (db.num_objects + 1))),
        at-extend db (db.num_objects + 1) n,
      )
      (ground arith)
