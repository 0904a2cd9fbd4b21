-- ===== src/Number.antt =====
-- numbers.cc: the arithmetic of MOO numbers. Integers are strict 32-bit integers, and no operation
-- converts between integers and floats, but for the exponent of a power.
pub mod Power
pub mod Examples
pub mod Laws
use stunt.Prelude.{
  ℕ, zero, suc, ◌+◌, ◌-◌, ◌*◌, ◌/◌, ◌%◌, Bool, true, false, ◌&&◌, ◌||◌, not, ◌==◌, List, [], ◌∷◌,
  if◌then◌else◌,
}
use stunt.Prelude.Int.{ℤ, pos, negsuc, neg_part, pos_part, sub_ℕ, ◌+ℤ◌, ◌-ℤ◌, ◌*ℤ◌, eqb_ℤ, ltb_ℤ}
use stunt.Int32.{wrap32, minint}
use stunt.Value.{Error, e_type, e_div, e_float, Var, int, err, float, type_of, Floats}

pub compare_integers : ℤ → ℤ → ℤ
compare_integers a b = if ltb_ℤ a b then negsuc 0 else if eqb_ℤ a b then pos 0 else pos 1

-- C's truncating division and its remainder, which has the dividend's sign.
unfoldable pub quotient : ℤ → ℤ → ℤ
quotient (pos a) (pos b) = pos (a / b)
quotient (pos a) (negsuc b) = sub_ℕ 0 (a / suc b)
quotient (negsuc a) (pos b) = sub_ℕ 0 (suc a / b)
quotient (negsuc a) (negsuc b) = pos (suc a / suc b)

unfoldable pub remainder : ℤ → ℤ → ℤ
remainder (pos a) (pos b) = pos (a % b)
remainder (pos a) (negsuc b) = pos (a % suc b)
remainder (negsuc a) (pos b) = sub_ℕ 0 (suc a % b)
remainder (negsuc a) (negsuc b) = sub_ℕ 0 (suc a % suc b)

module _ (f : Floats) where
  -- `new_float` behind the test `IS_REAL`.
  abbrev pub real : ℕ → Var
  real d = if f.is_real d then float d else err e_float

  -- The macro SIMPLE_BINARY, for the numbers that its callers let through: two values of one other
  -- type never come here.
  abbrev pub simple_binary : (ℤ → ℤ → ℤ) → (ℕ → ℕ → ℕ) → Var → Var → Var
  simple_binary op fop (int a) (int b) = int (wrap32 (op a b))
  simple_binary op fop (float a) (float b) = real (fop a b)
  simple_binary op fop a b = err e_type

  unfoldable pub do_add : Var → Var → Var
  do_add = simple_binary ◌+ℤ◌ f.add

  unfoldable pub do_subtract : Var → Var → Var
  do_subtract = simple_binary ◌-ℤ◌ f.subtract

  unfoldable pub do_multiply : Var → Var → Var
  do_multiply = simple_binary ◌*ℤ◌ f.multiply

  unfoldable pub compare_numbers : Var → Var → Var
  unfolding compare_integers
  compare_numbers (int a) (int b) = int (compare_integers a b)
  compare_numbers (float a) (float b) =
      int (if f.less a b then negsuc 0 else if f.equal a b then pos 0 else pos 1)
  compare_numbers a b = err e_type

  unfoldable pub do_modulus : Var → Var → Var
  do_modulus (int a) (int b) =
      if eqb_ℤ b (pos 0)
      then err e_div
      else if eqb_ℤ a minint && eqb_ℤ b (negsuc 0)
      then int (pos 0)
      else int (remainder a b)
  do_modulus (float a) (float b) = if f.is_zero b then err e_div else real (f.fmod a b)
  do_modulus a b = err e_type

  unfoldable pub do_divide : Var → Var → Var
  do_divide (int a) (int b) =
      if eqb_ℤ b (pos 0)
      then err e_div
      else if eqb_ℤ a minint && eqb_ℤ b (negsuc 0)
      then int minint
      else int (quotient a b)
  do_divide (float a) (float b) = if f.is_zero b then err e_div else real (f.divide a b)
  do_divide a b = err e_type
