-- ===== src/Interpreter/Examples.antt =====
-- `(x = 150) && x < 200 ? x + 200 | y`, compiled and run.
use stunt.Prelude.{ℕ, ◌≡◌, refl, true, List, [], arith, replicate}
use stunt.Prelude.Int.{pos}
use stunt.Value
use stunt.Value.{Var, int, is_true}
use stunt.Prelude.Int.{◌+ℤ◌}
use stunt.Int32.{wrap32, bits, signed32}
use stunt.Number.{compare_numbers, do_add}
use stunt.Interpreter.Operators.{finish_comparison, compare_op, concat_or_add, binary_op}
use stunt.Value.Sample.{whole_floats}
use stunt.Compiler.Syntax.{
  expr_plus, expr_lt, Expr, expr_var, expr_id, expr_asgn, expr_binary, expr_and, expr_cond,
  lvalue_id,
}
use stunt.Compiler.State.{init_gstate, init_state}
use stunt.Compiler.Generate.{generate_expr}
use stunt.Interpreter.Machine.{Frame, running, returned}
use stunt.Interpreter.Step.{run}
use stunt.Interpreter.Eval.{
  or_fail, answer, sum_or, sum_answer, option_answer, combine, look_up, and_then, eval, IsSimple,
}
use stunt.Interpreter.Correct.Runs.{machine}
use stunt.Interpreter.Correct.Compiled.{Compiled}
use stunt.Interpreter.Correct.Exprs.{generate_expr-Compiled}
use stunt.Interpreter.Correct.Return.{return_of, ending, run-return}

abbrev number : ℕ → Expr
number n = expr_var (int (pos n))

abbrev sample : Expr
sample =
    expr_cond
      (expr_and (expr_asgn (lvalue_id 33) (number 150))
        (expr_binary expr_lt (expr_id 33) (number 200)))
      (expr_binary expr_plus (expr_id 33) (number 200)) (expr_id 5)

sample-IsSimple : IsSimple sample
unfolding IsSimple
sample-IsSimple = omega arith

abbrev frame : Frame
frame = record {
  floats = whole_floats;
  debug = true;
  max_concat = 1000;
  concat_catchable = true;
  code = (return_of whole_floats sample).bytes;
  literals = (return_of whole_floats sample).gstate.literals;
}

abbrev variables : List Var
variables = replicate 40 Value.none

run-return_example :
    (n : ℕ) × (run frame n (running (machine 0 [] variables Value.none)) ≡ returned (int (pos 350)))
unfolding ending eval and_then is_true look_up combine option_answer binary_op answer or_fail
    compare_op finish_comparison compare_numbers sum_answer sum_or concat_or_add do_add wrap32 ◌+ℤ◌
    bits signed32
run-return_example =
    run-return whole_floats sample frame variables Value.none sample-IsSimple refl refl

generate_expr-Compiled_example :
    Compiled
      (λ fr env. eval fr sample env)
      []
      []
      (generate_expr whole_floats sample (init_state init_gstate)).bytes
      (generate_expr whole_floats sample (init_state init_gstate)).gstate.literals
unfolding init_state init_gstate
generate_expr-Compiled_example =
    generate_expr-Compiled whole_floats sample (init_state init_gstate) sample-IsSimple
