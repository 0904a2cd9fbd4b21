-- ===== src/Value/Sample.antt =====
-- Test data: floats whose pattern is a whole number.
use stunt.Prelude.{◌+◌, ◌-◌, ◌*◌, ◌/◌, ◌%◌, true, ◌==◌, ltb}
use stunt.Prelude.Int.{pos}
use stunt.Value.{Floats}

abbrev pub whole_floats : Floats
whole_floats = record {
  add = λ a b. a + b;
  subtract = λ a b. a - b;
  multiply = λ a b. a * b;
  divide = λ a b. a / b;
  fmod = λ a b. a % b;
  fabs = λ a. a;
  less = λ a b. ltb a b;
  equal = λ a b. a == b;
  is_zero = λ a. a == 0;
  is_real = λ a. true;
  to_int = λ a. pos a;
}
