-- ===== src/Value/Compare.antt =====
-- utils.cc: `compare`, which orders the keys of maps and the elements of sorts.
pub mod Order
use stunt.Prelude.{ℕ, Bool, true, false, Option, ◌==◌, if◌then◌else◌}
use mathlib.Core.Option.{some}
use mathlib.Core.Option
use stunt.Prelude.Int.{ℤ, pos, ◌-ℤ◌}
use stunt.Text.Case.{Text, mystrcasecmp}
use stunt.Int32.{wrap32}
use stunt.Value.{Floats, Error, error_code, Var, int, obj, str, err, float, type_of}

-- `strcmp` is the platform's; `shared` says whether the two values point to the same string or
-- number; `Option.none` is the panic.
module _ (f : Floats) (strcmp : Text → Text → ℤ) (shared case_matters : Bool) where
  compare_strings : Text → Text → ℤ
  compare_strings s t =
      if shared then pos 0 else if case_matters then strcmp s t else mystrcasecmp s t

  compare_floats : ℕ → ℕ → ℤ
  compare_floats a b = if shared then pos 0 else f.to_int (f.subtract a b)

  unfoldable pub compare : Var → Var → Option ℤ
  unfolding compare_strings compare_floats ◌-ℤ◌
  compare (int a) (int b) = some (wrap32 (a -ℤ b))
  compare (obj a) (obj b) = some (wrap32 (a -ℤ b))
  compare (err a) (err b) = some (pos (error_code a) -ℤ pos (error_code b))
  compare (str s) (str t) = some (compare_strings s t)
  compare (float a) (float b) = some (compare_floats a b)
  compare lhs rhs =
      if type_of lhs == type_of rhs
      then Option.none
      else some (pos (type_of lhs) -ℤ pos (type_of rhs))
