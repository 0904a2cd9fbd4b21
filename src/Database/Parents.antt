-- ===== src/Database/Parents.antt =====
-- db_objects.cc: the check of a list of parents for duplicates.
pub mod Duplicates
use stunt.Prelude.{ℕ, zero, suc, ◌+◌, Bool, true, false, Option}
use mathlib.Core.Option.{some}
use mathlib.Core.Option
use stunt.Value.{Floats, Var, Items, list, nil, cons}
use stunt.Value.Equality.{equality}

abbrev pub skip : ℕ → Items → Items
skip zero xs = xs
skip (suc n) nil = nil
skip (suc n) (cons v xs) = skip n xs

module _ (f : Floats) where
  -- The inner loop: is one of the elements equal to `v`? `Option.none` is a panic of `equality`.
  unfoldable pub any_equal : Var → Items → Option Bool
  any_equal v nil = some false
  any_equal v (cons w xs) = elim (equality f true v w) [
    | Option.none ↦ Option.none
    | some true ↦ some true
    | some false ↦ any_equal v xs
  ]

  -- The outer loop, from the element at `i` on: the inner loop begins at `i + i`, which is `i`
  -- elements after it.
  unfoldable pub all_single : ℕ → Items → Option Bool
  all_single i nil = some true
  all_single i (cons v xs) = elim (any_equal v (skip i (cons v xs))) [
    | Option.none ↦ Option.none
    | some true ↦ some false
    | some false ↦ all_single (i + 1) xs
  ]

  unfoldable pub check_for_duplicates : Var → Option Bool
  check_for_duplicates (list xs) = all_single 1 xs
  check_for_duplicates _ = some true
