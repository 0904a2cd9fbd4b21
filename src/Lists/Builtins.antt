-- ===== src/Lists/Builtins.antt =====
-- list.cc: the built-in functions that change a list, with the bound on the bytes of the result.
use stunt.Prelude.{
  ℕ, ◌+◌, Bool, true, false, ◌||◌, Option, none, some, List, length, ltb, leb, ◌==◌, if◌then◌else◌,
}
use stunt.Prelude.Int.{ℤ, pos, pos_part, ◌+ℤ◌}
use stunt.Int32.{wrap32}
use stunt.Value.{Error, e_quota, e_range}
use stunt.Lists.{clamp, doinsert, listdelete, listset, setadd, setremove}

-- `package`: a value, an error, or the end of the task.
pub data Reply {ℓ} (A : Type ℓ) : Type ℓ where
  make_var_pack : A → Reply A
  make_error_pack : Error → Reply A
  make_abort_pack : Reply A

-- `catchable` is the server option `max_concat_catchable`.
unfoldable pub make_space_pack {ℓ} : {A : Type ℓ} → Bool → Reply A
make_space_pack catchable = if catchable then make_error_pack e_quota else make_abort_pack

-- `value_bytes` measures a list, `limit` is the server option `max_list_value_bytes`.
module _ {ℓ} {A : Type ℓ} (value_bytes : List A → ℕ) (limit : ℕ) (catchable : Bool) where
  unfoldable pub within_limit : List A → Reply (List A)
  within_limit r = if leb (value_bytes r) limit then make_var_pack r else make_space_pack catchable

  unfoldable pub bf_setadd : (A → A → Bool) → ℕ → List A → A → Reply (List A)
  bf_setadd eq refs lst elt = within_limit (setadd eq refs lst elt)

  unfoldable pub bf_setremove : (A → A → Bool) → List A → A → Reply (List A)
  bf_setremove eq lst elt = within_limit (setremove eq lst elt)

  -- The position: the third argument, where there is one.
  unfoldable pub insert_or_append : ℕ → List A → A → Option ℤ → Bool → Reply (List A)
  insert_or_append refs lst elt none append1 =
      within_limit (doinsert refs lst elt (if append1 then length lst + 1 else 1))
  insert_or_append refs lst elt (some p) append1 = within_limit (
      doinsert refs lst elt (clamp (wrap32 (p +ℤ (if append1 then pos 1 else pos 0))) (length lst)))

  unfoldable pub bf_listappend : ℕ → List A → A → Option ℤ → Reply (List A)
  bf_listappend refs lst elt p = insert_or_append refs lst elt p true

  unfoldable pub bf_listinsert : ℕ → List A → A → Option ℤ → Reply (List A)
  bf_listinsert refs lst elt p = insert_or_append refs lst elt p false

  unfoldable pub bf_listdelete : List A → ℤ → Reply (List A)
  bf_listdelete lst p =
      if (pos_part p == 0) || ltb (length lst) (pos_part p)
      then make_error_pack e_range
      else within_limit (listdelete lst (pos_part p))

  unfoldable pub bf_listset : List A → A → ℤ → Reply (List A)
  bf_listset lst elt p =
      if (pos_part p == 0) || ltb (length lst) (pos_part p)
      then make_error_pack e_range
      else within_limit (listset lst elt (pos_part p))
