-- ===== src/Interpreter/Correct/Answers.antt =====
-- The opcodes of the operators give the meaning of the operators.
use stunt.Prelude.{ℕ, ◌≡◌, refl, false, not, ◌&&◌, List, ◌∷◌, ◌==◌, Bool-cases, inl, inr}
use mathlib.Core.Option.{Option, none, some}
use stunt.Value.{Var, Error, e_varnf, type_of}
use stunt.Compiler.Syntax.{
  Binary, expr_plus, expr_minus, expr_times, expr_divide, expr_mod, expr_eq, expr_ne, expr_lt,
  expr_le, expr_gt, expr_ge, expr_in,
}
use stunt.Interpreter.Machine.{
  Frame, Machine, as_error, push_error, is_quota, push_error_unless_quota, push_or_fail,
  push_answer, sum_or_fail, push_sum, push_option, run_binary, push_value,
}
use stunt.Interpreter.Eval.{
  fail, or_fail, answer, sum_or, sum_answer, option_answer, combine, look_up,
}
use stunt.Interpreter.Correct.Runs.{after}

module _ (fr : Frame) (pc : ℕ) (rts : List Var) (m : Machine) where
  push_error-after :
      (e : Error) → push_error fr e pc rts m ≡ after fr false pc rts m.temp (fail fr e m.rt_env)
  unfolding push_error fail after
  push_error-after e = elim (Bool-cases fr.debug) [ inl h ↦ rw h refl | inr h ↦ rw h refl ]

  push_or_fail-after :
      (o : Option Error) (v : Var)
      → push_or_fail fr o v pc rts m ≡ after fr false pc rts m.temp (or_fail fr o v m.rt_env)
  unfolding push_or_fail or_fail
  push_or_fail-after none v = unfold after in refl
  push_or_fail-after (some e) v = push_error-after e

  pub push_answer-after :
      (v : Var) → push_answer fr v pc rts m ≡ after fr false pc rts m.temp (answer fr v m.rt_env)
  unfolding push_answer answer
  push_answer-after v = push_or_fail-after (as_error v) v

  sum_or_fail-after :
      (o : Option Error) (v : Var)
      → sum_or_fail fr o v pc rts m ≡ after fr false pc rts m.temp (sum_or fr o v m.rt_env)
  unfolding sum_or_fail sum_or push_error_unless_quota
  sum_or_fail-after none v = unfold after in refl
  sum_or_fail-after (some e) v = elim (Bool-cases (is_quota fr e && not fr.concat_catchable)) [
    | inl h ↦ rw h (unfold after in refl)
    | inr h ↦ rw h (push_error-after e)
  ]

  push_sum-after :
      (v : Var) → push_sum fr v pc rts m ≡ after fr false pc rts m.temp (sum_answer fr v m.rt_env)
  unfolding push_sum sum_answer
  push_sum-after v = sum_or_fail-after (as_error v) v

  push_option-after :
      (o : Option Var)
      → push_option fr o pc rts m ≡ after fr false pc rts m.temp (option_answer fr o m.rt_env)
  unfolding push_option option_answer
  push_option-after none = unfold after in refl
  push_option-after (some v) = push_answer-after v

  pub run_binary-after :
      (o : Binary) (l r : Var)
      → run_binary fr o pc (r ∷ l ∷ rts) m
        ≡ after fr false pc rts m.temp (combine fr o l r m.rt_env)
  unfolding run_binary combine
  run_binary-after expr_plus l r = push_sum-after _
  run_binary-after expr_minus l r = push_option-after _
  run_binary-after expr_times l r = push_option-after _
  run_binary-after expr_divide l r = push_option-after _
  run_binary-after expr_mod l r = push_option-after _
  run_binary-after expr_eq l r = push_option-after _
  run_binary-after expr_ne l r = push_option-after _
  run_binary-after expr_lt l r = push_option-after _
  run_binary-after expr_le l r = push_option-after _
  run_binary-after expr_gt l r = push_option-after _
  run_binary-after expr_ge l r = push_option-after _
  run_binary-after expr_in l r = push_option-after _

pub push_value-after :
    (fr : Frame) (pc : ℕ) (m : Machine) (v : Var)
    → push_value fr v pc m ≡ after fr false pc m.rts m.temp (look_up fr v m.rt_env)
unfolding push_value look_up
push_value-after fr pc m v = elim (Bool-cases (type_of v == 6)) [
  | inl h ↦ rw h (push_error-after fr pc m.rts m e_varnf)
  | inr h ↦ rw h (unfold after in refl)
]
