-- ===== src/Database/Move/Keeps.antt =====
-- Every step of `do_move` answers, and keeps locations, contents and nesting sound.
use stunt.Prelude.{
  some_eq, ℕ, zero, ◌<◌, ◌≤◌, ◌≡◌, refl, sym, subst, ◌∙◌, Bool, true, false, ◌||◌, ◌&&◌, not, none,
  some, arith, ◌==◌, if◌then◌else◌, Bool-cases, Option-cases, inl, inr, ◌⊎◌,
}
use stunt.Prelude.Int.{ℤ, eqb_ℤ}
use stunt.Value.{Error, e_none, e_maxrec, e_verbnf, e_recmove, Var, Floats, is_true}
use stunt.Database.Store.{Db, nothing, find, valid}
use stunt.Database.Users.{is_wizard}
use stunt.Database.Location.{db_object_location, relocate, db_change_location}
use stunt.Database.Containment.{IsPlaced, db_change_location-IsPlaced}
use stunt.Database.Nesting.{IsNested, rooted, encloses-rooted, relocate-IsNested}
use stunt.Database.Move.{
  Package, make_error_pack, make_call_pack, CallVerb, encloses, Outcome, change_location,
  returned_from_exitfunc, accepts_decided, check_validity, do_move, is_at, eqb_error, exitfunc,
  accept, controls,
}

-- What is sure of the outcome of a step.
pub record IsKept (before : Db) (what where_ : ℤ) (r : Outcome) : Type 0 where
  pub after : Db
  pub pack : Package
  pub answers : r ≡ some (after, pack)
  pub placed : IsPlaced after
  pub nested : IsNested after
  pub moves : (after ≡ before) ⊎ (db_object_location after what ≡ some where_)

located-valid :
    (db : Db) (oid : ℤ) → valid db oid ≡ true → (l : ℤ) × (db_object_location db oid ≡ some l)
unfolding valid db_object_location
located-valid db oid v = elim (Option-cases (find db oid)) [
  | inl gone ↦ absurd (ground arith)
  | inr (o, h) ↦ (o.location, rw h)
]

change_location-relocate :
    (db : Db) (what new k : ℤ)
    → db_object_location db what ≡ some k
    → db_change_location db what new ≡ some (relocate db what k new)
unfolding db_change_location
change_location-relocate db what new k h = rw (h, db_change_location)

module _ (call_verb : CallVerb) (before db : Db) (what where_ : ℤ) (p : IsPlaced db)
    (q : IsNested db) (m : (db ≡ before) ⊎ (db_object_location db what ≡ some where_)) where
  stays : (k : Package) → IsKept before what where_ (some (db, k))
  stays k = record { after = db; pack = k; answers = refl; placed = p; nested = q; moves = m }

  returned-IsKept :
      IsKept before what where_ (some (returned_from_exitfunc call_verb db what where_))
  unfolding returned_from_exitfunc
  returned-IsKept =
      elim (Bool-cases
        (valid db where_ && valid db what && is_at (db_object_location db what) where_)) [
          | inl here ↦ rw here (stays _)
          | inr away ↦ rw away (stays _)
        ]

  -- The package after `exitfunc`, by what `call_verb` says.
  exit-IsKept :
      (e : Error)
      → IsKept before what where_ (
          some (
            if eqb_error e e_none
            then (db, make_call_pack 3)
            else if eqb_error e e_maxrec
            then (db, make_error_pack e)
            else returned_from_exitfunc call_verb db what where_))
  exit-IsKept e = elim (Bool-cases (eqb_error e e_none)) [
    | inl called ↦ rw called (stays _)
    | inr missed ↦ elim (Bool-cases (eqb_error e e_maxrec)) [
      | inl deep ↦ rw (missed, deep) (stays _)
      | inr other ↦ rw (missed, other) returned-IsKept
    ]
  ]

module _ (call_verb : CallVerb) (db : Db) (what where_ : ℤ) (p : IsPlaced db)
    (q : IsNested db) where
  change_location-IsKept :
      (n fuel : ℕ)
      → valid db what ≡ true
      → encloses db fuel what where_ ≡ some false
      → rooted db n where_ ≡ true
      → IsKept db what where_ (change_location call_verb db what where_)
  unfolding change_location
  change_location-IsKept n fuel v e r =
      let (k, h) = located-valid db what v in
      let (db', e', p', at') = db_change_location-IsPlaced db what where_ v p in
      let same : relocate db what k where_ ≡ db' =
        some_eq (sym (change_location-relocate db what where_ k h) ∙ e') in
      rw (change_location, h, e')
        (exit-IsKept call_verb db db' what where_ p'
          (subst IsNested same (relocate-IsNested db what k where_ k h n fuel e r q)) (inr at')
          (call_verb db' k exitfunc what))

-- What the check before the loop leaves.
checked : (a b c d : Bool) → not a || not b && not c || d ≡ false → (a ≡ true) × (b || c ≡ true)
checked a b c d h = (ground arith, ground arith)

module _ (call_verb : CallVerb) (db : Db) (what where_ progr : ℤ) (p : IsPlaced db)
    (q : IsNested db) where
  loop-IsKept :
      (n fuel : ℕ)
      → n < fuel
      → valid db what ≡ true
      → rooted db n where_ ≡ true
      → IsKept db what where_ (elim (encloses db fuel what where_) as (λ x. Outcome) [
        | none ↦ none
        | some true ↦ some (db, make_error_pack e_recmove)
        | some false ↦ change_location call_verb db what where_
      ])
  loop-IsKept n fuel h v r = go (encloses-rooted db n fuel what where_ h r)
    where
      go :
          (b : Bool) × (encloses db fuel what where_ ≡ some b)
          → IsKept db what where_ (elim (encloses db fuel what where_) as (λ x. Outcome) [
            | none ↦ none
            | some true ↦ some (db, make_error_pack e_recmove)
            | some false ↦ change_location call_verb db what where_
          ])
      go (true, e) = rw e (stays call_verb db db what where_ p q (inl refl) _)
      go (false, e) = rw e (change_location-IsKept call_verb db what where_ p q n fuel v e r)

  accepts-IsKept :
      (n fuel : ℕ) (accepts : Bool)
      → n < fuel
      → (eqb_ℤ where_ nothing || valid db where_ ≡ true → rooted db n where_ ≡ true)
      → IsKept db what where_ (accepts_decided call_verb fuel db what where_ progr accepts)
  unfolding accepts_decided
  accepts-IsKept n fuel accepts h r = elim (Bool-cases (not (is_wizard db progr) && not accepts)) [
    | inl denied ↦ rw denied (stays call_verb db db what where_ p q (inl refl) _)
    | inr allowed ↦
        elim (Bool-cases (
          not (valid db what)
          || not (eqb_ℤ where_ nothing) && not (valid db where_)
          || is_at (db_object_location db what) where_)) [
            | inl idle ↦ rw (allowed, idle) (stays call_verb db db what where_ p q (inl refl) _)
            | inr due ↦
                let (v, w) =
                  checked (valid db what) (eqb_ℤ where_ nothing) (valid db where_) _ due in
                rw (allowed, due) (loop-IsKept n fuel h v (r w))
          ]
  ]

  check_validity-IsKept :
      (n fuel : ℕ)
      → n < fuel
      → (eqb_ℤ where_ nothing || valid db where_ ≡ true → rooted db n where_ ≡ true)
      → IsKept db what where_ (check_validity call_verb fuel db what where_ progr)
  unfolding check_validity
  check_validity-IsKept n fuel h r =
      elim (Bool-cases
        (not (valid db what) || not (valid db where_) && not (eqb_ℤ where_ nothing))) [
          | inl bad ↦ rw bad same
          | inr good ↦ elim (Bool-cases (not (controls db progr what))) [
            | inl denied ↦ rw (good, denied) same
            | inr allowed ↦ elim (Bool-cases (eqb_ℤ where_ nothing)) [
              | inl away ↦ rw (good, allowed, away) (accepts-IsKept n fuel true h r)
              | inr place ↦ elim (Bool-cases (eqb_error e e_none)) [
                | inl called ↦ rw (good, allowed, place, called) same
                | inr missed ↦ elim (Bool-cases (eqb_error e e_verbnf)) [
                  | inl no_verb ↦
                      rw (good, allowed, place, missed, no_verb) (accepts-IsKept n fuel false h r)
                  | inr other ↦ rw (good, allowed, place, missed, other) same
                ]
              ]
            ]
          ]
        ]
    where
      e : Error
      e = call_verb db where_ accept what

      same : {k : Package} → IsKept db what where_ (some (db, k))
      same {k} = stays call_verb db db what where_ p q (inl refl) k

  -- How far a place is below the outermost one.
  depth_of : (n : ℕ) × (eqb_ℤ where_ nothing || valid db where_ ≡ true → rooted db n where_ ≡ true)
  unfolding rooted
  depth_of = elim (Bool-cases (eqb_ℤ where_ nothing)) [
    | inl top ↦ (zero, λ x. top)
    | inr low ↦ elim (Bool-cases (valid db where_)) [
      | inl v ↦
          let (l, h) = located-valid db where_ v in let (n, r) = q.nested where_ l h in (n, λ x. r)
      | inr gone ↦ (zero, λ x. absurd (ground arith))
    ]
  ]

-- The step of a move: in a database whose contents and locations agree and whose chains of locations
-- end, each of the four entry points of do_move answers once the fuel of its loop is large enough,
-- whatever the called verbs answer and whoever asks, and it leaves a database with both properties,
-- that is either the one before or one in which the object is located in the new place.
pub do_move-IsKept :
    (call_verb : CallVerb) (f : Floats) (db : Db) (what where_ progr : ℤ) (arglist : Var) (next : ℕ)
    → 1 ≤ next
    → next ≤ 4
    → IsPlaced db
    → IsNested db
    → (n : ℕ) × ((fuel : ℕ)
        → n < fuel
        → IsKept db what where_ (do_move call_verb fuel db what where_ progr f next arglist))
unfolding do_move
do_move-IsKept call_verb f db what where_ progr arglist next h h' p q =
    let (n, r) = depth_of call_verb db what where_ progr p q in
    (
      n,
      λ fuel lt. elim (Bool-cases (next == 1)) [
        | inl one ↦ rw one (check_validity-IsKept call_verb db what where_ progr p q n fuel lt r)
        | inr more ↦ elim (Bool-cases (next == 2)) [
          | inl two ↦
              rw (more, two)
                (accepts-IsKept call_verb db what where_ progr p q n fuel (is_true f arglist) lt r)
          | inr past ↦ elim (Bool-cases (next == 3)) [
            | inl three ↦
                rw (more, past, three) (returned-IsKept call_verb db db what where_ p q (inl refl))
            | inr last ↦
                let four : (next == 4) ≡ true = ground arith in
                rw (more, past, last, four) (stays call_verb db db what where_ p q (inl refl) _)
          ]
        ]
      ],
    )
