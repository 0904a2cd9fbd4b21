-- ===== src/Database/Move.antt =====
-- objects.cc: `controls` and `do_move`, which the calls of verbs cut into resumable steps.
pub mod Keeps
use stunt.Prelude.{
  ℕ, zero, suc, Bool, true, false, ◌&&◌, ◌||◌, not, Option, none, some, List, [], ◌∷◌, ◌==◌,
  if◌then◌else◌,
}
use mathlib.Core.Option
use stunt.Prelude.Int.{ℤ, eqb_ℤ}
use stunt.Value.{
  Error, e_none, e_invarg, e_perm, e_recmove, e_maxrec, e_nacc, e_verbnf, error_code, Var, Floats,
  is_true,
}
use stunt.Database.Store.{Object, Db, nothing, find, valid}
use stunt.Database.Location.{db_object_location, db_change_location}
use stunt.Database.Users.{is_wizard}

-- `package`, without the values of the kinds that the moves do not make.
pub data Package : Type 0 where
  no_var_pack : Package
  make_error_pack : Error → Package
  make_call_pack : ℕ → Package

-- The verbs that a move calls.
pub data Hook : Type 0 where
  accept exitfunc enterfunc : Hook

-- What `call_verb` answers, by the database, the receiver, the name and the argument.
abbrev pub CallVerb : Type 0
CallVerb = Db → ℤ → Hook → ℤ → Error

abbrev pub eqb_error : Error → Error → Bool
eqb_error a b = error_code a == error_code b

-- `db_object_owner`
unfoldable pub db_object_owner : Db → ℤ → Option ℤ
db_object_owner db oid = Option.map (λ o. o.owner) (find db oid)

abbrev pub is_at : Option ℤ → ℤ → Bool
is_at none l = false
is_at (some x) l = eqb_ℤ x l

unfoldable pub controls : Db → ℤ → ℤ → Bool
controls db who what = is_wizard db who || is_at (db_object_owner db what) who

-- The loop over the locations from `oid` on: is `what` one of them? `none` is the location of no
-- object, or the end of the fuel.
unfoldable pub encloses : Db → ℕ → ℤ → ℤ → Option Bool
encloses db zero what oid = none
encloses db (suc fuel) what oid =
    let next : Option Bool = elim (db_object_location db oid) [
      | none ↦ none
      | some l ↦ encloses db fuel what l
    ] in
    if eqb_ℤ oid nothing then some false else if eqb_ℤ oid what then some true else next

-- The database and the package that a step leaves; `none` is the dereference of a NULL pointer, the
-- panic on an unknown step, or the end of the fuel.
abbrev pub Outcome : Type 0
Outcome = Option (Db × Package)

module _ (call_verb : CallVerb) (db : Db) (what where_ : ℤ) where
  -- `case 3`, the call of `enterfunc`.
  unfoldable pub returned_from_exitfunc : Db × Package
  returned_from_exitfunc =
      let e = call_verb db where_ enterfunc what in
      if valid db where_ && valid db what && is_at (db_object_location db what) where_
      then (
        db,
        if eqb_error e e_none
            then make_call_pack 4
            else if eqb_error e e_maxrec
            then make_error_pack e
            else no_var_pack,
      )
      else (db, no_var_pack)

module _ (call_verb : CallVerb) (db : Db) (what where_ : ℤ) where
  -- The change of location and the call of `exitfunc`, which falls through to `case 3`.
  unfoldable pub change_location : Outcome
  change_location = elim (db_object_location db what) [
    | none ↦ none
    | some oldloc ↦
        Option.map
          (λ db'.
            let e = call_verb db' oldloc exitfunc what in
            if eqb_error e e_none
            then (db', make_call_pack 3)
            else if eqb_error e e_maxrec
            then (db', make_error_pack e)
            else returned_from_exitfunc call_verb db' what where_)
          (db_change_location db what where_)
  ]

module _ (call_verb : CallVerb) (fuel : ℕ) (db : Db) (what where_ progr : ℤ) where
  -- `accepts_decided`
  unfoldable pub accepts_decided : Bool → Outcome
  accepts_decided accepts =
      if not (is_wizard db progr) && not accepts
      then some (db, make_error_pack e_nacc)
      else if not (valid db what)
          || (not (eqb_ℤ where_ nothing) && not (valid db where_))
          || is_at (db_object_location db what) where_
      then some (db, no_var_pack)
      else elim (encloses db fuel what where_) [
        | none ↦ none
        | some true ↦ some (db, make_error_pack e_recmove)
        | some false ↦ change_location call_verb db what where_
      ]

  -- `case 1`, the checks and the call of `accept`.
  unfoldable pub check_validity : Outcome
  check_validity =
      let e = call_verb db where_ accept what in
      if not (valid db what) || (not (valid db where_) && not (eqb_ℤ where_ nothing))
      then some (db, make_error_pack e_invarg)
      else if not (controls db progr what)
      then some (db, make_error_pack e_perm)
      else if eqb_ℤ where_ nothing
      then accepts_decided true
      else if eqb_error e e_none
      then some (db, make_call_pack 2)
      else if eqb_error e e_verbnf
      then accepts_decided false
      else some (db, make_error_pack e)

  unfoldable pub do_move : Floats → ℕ → Var → Outcome
  do_move f next arglist =
      if next == 1
      then check_validity
      else if next == 2
      then accepts_decided (is_true f arglist)
      else if next == 3
      then some (returned_from_exitfunc call_verb db what where_)
      else if next == 4
      then some (db, no_var_pack)
      else none
