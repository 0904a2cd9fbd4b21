-- ===== src/Interpreter/Operators.antt =====
-- execute.cc: what the operators of `run` compute.
use stunt.Prelude.{
  ℕ, ◌+◌, ◌%◌, Bool, true, false, ◌&&◌, ◌||◌, not, ◌==◌, ◌++◌, ltb, length, if◌then◌else◌,
}
use mathlib.Core.Option.{Option, none, some}
use mathlib.Core.Option
use stunt.Prelude.Int.{ℤ, pos, ◌-ℤ◌, ltb_ℤ, neg_ℤ}
use stunt.Int32.{wrap32}
use stunt.Text.Case.{mystrcasecmp}
use stunt.Value.{
  e_type, e_quota, Var, int, obj, str, err, float, type_of, error_code, Floats, is_true,
}
use stunt.Value.Equality.{equality}
use stunt.Number.{
  compare_integers, do_add, do_subtract, do_multiply, do_divide, do_modulus, compare_numbers,
}
use stunt.Compiler.Syntax.{
  Binary, expr_plus, expr_minus, expr_times, expr_divide, expr_mod, expr_eq, expr_ne, expr_lt,
  expr_le, expr_gt, expr_ge, expr_in,
}

abbrev pub of_bool : Bool → Var
of_bool b = int (if b then pos 1 else pos 0)

abbrev pub is_number : Var → Bool
is_number (int n) = true
is_number (float d) = true
is_number v = false

abbrev pub numbers : Var → Var → Bool
numbers l r = is_number l && is_number r

-- `comparison < 0` and so on.
abbrev pub holds : Binary → ℤ → Bool
holds expr_lt c = ltb_ℤ c (pos 0)
holds expr_le c = not (ltb_ℤ (pos 0) c)
holds expr_gt c = ltb_ℤ (pos 0) c
holds o c = not (ltb_ℤ c (pos 0))

-- The sign bit of a double.
abbrev pub flip_sign : ℕ → ℕ
flip_sign d = (d + 9223372036854775808) % 18446744073709551616

module _ (f : Floats) where
  -- `ans` of `compare_numbers`, which is an error or a comparison.
  unfoldable pub finish_comparison : Binary → Var → Var
  finish_comparison o (int c) = of_bool (holds o c)
  finish_comparison o ans = ans

  -- The comparison of two values that are not both numbers; values of the other types compare as
  -- equal, but for lists and maps.
  unfoldable pub compare_others : Binary → Var → Var → Var
  compare_others o (obj a) (obj b) = of_bool (holds o (compare_integers a b))
  compare_others o (err a) (err b) = of_bool (holds o (pos (error_code a) -ℤ pos (error_code b)))
  compare_others o (str s) (str t) = of_bool (holds o (mystrcasecmp s t))
  compare_others o l r =
      if not (type_of r == type_of l) || (type_of r == 0x84) || (type_of r == 0x8a)
      then err e_type
      else of_bool (holds o (pos 0))

  -- `OP_GT`, `OP_LT`, `OP_GE`, `OP_LE`.
  unfoldable pub compare_op : Binary → Var → Var → Var
  compare_op o l r =
      if numbers l r then finish_comparison o (compare_numbers f l r) else compare_others o l r

  -- `OP_MULT`, `OP_MINUS`, `OP_DIV`, `OP_MOD`.
  unfoldable pub arith_op : (Var → Var → Var) → Var → Var → Var
  arith_op g l r = if numbers l r then g l r else err e_type

  -- `OP_ADD`, with `SVO_MAX_STRING_CONCAT`.
  unfoldable pub concat_or_add : ℕ → Var → Var → Var
  concat_or_add limit (str s) (str t) =
      if ltb limit (length s + length t) then err e_quota else str (s ++ t)
  concat_or_add limit l r = if numbers l r then do_add f l r else err e_type

  -- `OP_EQ`; `none` is a panic.
  unfoldable pub equal_op : Var → Var → Option Var
  equal_op l r = Option.map of_bool (equality f false r l)

  unfoldable pub differ_op : Var → Var → Option Var
  differ_op l r = Option.map (λ (b : Bool). of_bool (not b)) (equality f false r l)

  -- The answer of a binary operator, an error where the code pushes one. `none` is a panic, or `in`,
  -- which is not modelled.
  unfoldable pub binary_op : ℕ → Binary → Var → Var → Option Var
  binary_op limit expr_plus l r = some (concat_or_add limit l r)
  binary_op limit expr_minus l r = some (arith_op (do_subtract f) l r)
  binary_op limit expr_times l r = some (arith_op (do_multiply f) l r)
  binary_op limit expr_divide l r = some (arith_op (do_divide f) l r)
  binary_op limit expr_mod l r = some (arith_op (do_modulus f) l r)
  binary_op limit expr_eq l r = equal_op l r
  binary_op limit expr_ne l r = differ_op l r
  binary_op limit expr_lt l r = some (compare_op expr_lt l r)
  binary_op limit expr_le l r = some (compare_op expr_le l r)
  binary_op limit expr_gt l r = some (compare_op expr_gt l r)
  binary_op limit expr_ge l r = some (compare_op expr_ge l r)
  binary_op limit expr_in l r = none

-- `OP_UNARY_MINUS`
unfoldable pub minus_op : Var → Var
minus_op (int n) = int (wrap32 (neg_ℤ n))
minus_op (float d) = float (flip_sign d)
minus_op v = err e_type

-- `OP_NOT`
unfoldable pub not_op : Floats → Var → Var
not_op f v = of_bool (not (is_true f v))
