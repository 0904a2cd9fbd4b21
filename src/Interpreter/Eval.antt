-- ===== src/Interpreter/Eval.antt =====
-- What the expressions of the language mean, without their code.
use stunt.Prelude.{◌&&◌, not, List, get_or, set, ◌==◌, if◌then◌else◌}
use mathlib.Core.Option.{Option, none, some}
use stunt.Value
use stunt.Value.{Error, e_varnf, Var, err, Floats, is_true, type_of}
use stunt.Compiler.Syntax.{
  Binary, expr_plus, expr_in, Expr, expr_var, expr_id, expr_asgn, expr_binary, expr_negate,
  expr_not, expr_and, expr_or, expr_cond, lvalue_id,
}
use stunt.Interpreter.Operators.{concat_or_add, binary_op, minus_op, not_op}
use stunt.Interpreter.Machine.{Frame, as_error, is_quota}

-- A value and the variables; an error, raised with the variables as they are; the end of the task;
-- `outside`, an expression that is not modelled or a panic.
pub data Result : Type 0 where
  value : Var → List Var → Result
  raises : Error → List Var → Result
  aborts : Result
  outside : Result

module _ (fr : Frame) where
  -- An error is raised, or is the value where the debug bit is off.
  unfoldable pub fail : Error → List Var → Result
  fail e env = if fr.debug then raises e env else value (err e) env

  unfoldable pub or_fail : Option Error → Var → List Var → Result
  or_fail none v env = value v env
  or_fail (some e) v env = fail e env

  unfoldable pub answer : Var → List Var → Result
  answer v env = or_fail (as_error v) v env

  unfoldable pub sum_or : Option Error → Var → List Var → Result
  sum_or none v env = value v env
  sum_or (some e) v env = if is_quota fr e && not fr.concat_catchable then aborts else fail e env

  unfoldable pub sum_answer : Var → List Var → Result
  sum_answer v env = sum_or (as_error v) v env

  unfoldable pub option_answer : Option Var → List Var → Result
  option_answer none env = outside
  option_answer (some v) env = answer v env

  unfoldable pub combine : Binary → Var → Var → List Var → Result
  combine expr_plus l r env = sum_answer (concat_or_add fr.floats fr.max_concat l r) env
  combine o l r env = option_answer (binary_op fr.floats fr.max_concat o l r) env

  unfoldable pub look_up : Var → List Var → Result
  look_up v env = if type_of v == 6 then fail e_varnf env else value v env

  unfoldable pub and_then : Result → (Var → List Var → Result) → Result
  and_then (value v env) k = k v env
  and_then (raises e env) k = raises e env
  and_then aborts k = aborts
  and_then outside k = outside

  unfoldable pub eval : Expr → List Var → Result
  eval (expr_var v) env = value v env
  eval (expr_id id) env = look_up (get_or env id Value.none) env
  eval (expr_and l r) env =
      let right = eval r in
      and_then (eval l env)
        (λ v env'. if not (is_true fr.floats v) then value v env' else right env')
  eval (expr_or l r) env =
      let right = eval r in
      and_then (eval l env) (λ v env'. if is_true fr.floats v then value v env' else right env')
  eval (expr_not e) env = and_then (eval e env) (λ v env'. value (not_op fr.floats v) env')
  eval (expr_negate e) env = and_then (eval e env) (λ v env'. answer (minus_op v) env')
  eval (expr_binary o l r) env =
      and_then (eval l env) (λ v env'. and_then (eval r env') (λ w env''. combine o v w env''))
  eval (expr_cond c t e) env =
      and_then (eval c env) (λ v env'. if is_true fr.floats v then eval t env' else eval e env')
  eval (expr_asgn (lvalue_id id) e) env = and_then (eval e env) (λ v env'. value v (set env' id v))
  eval e env = outside

-- Integers, object numbers, strings and errors. Two floats that are not the same can share a literal.
abbrev pub IsConstant : Var → Type 0
IsConstant (Value.int n) = Unit
IsConstant (Value.obj n) = Unit
IsConstant (Value.str s) = Unit
IsConstant (Value.err e) = Unit
IsConstant v = ⊥

-- The binary operators but `in`.
abbrev pub IsOperator : Binary → Type 0
IsOperator expr_in = ⊥
IsOperator o = Unit

-- The expressions of constants, variables, assignments to variables, `&&`, `||`, `!`, the negation, the
-- binary operators `+ - * / % == != < <= > >=`, and the conditional.
unfoldable pub IsSimple : Expr → Type 0
IsSimple (expr_var v) = IsConstant v
IsSimple (expr_id id) = Unit
IsSimple (expr_and l r) = IsSimple l × IsSimple r
IsSimple (expr_or l r) = IsSimple l × IsSimple r
IsSimple (expr_not e) = IsSimple e
IsSimple (expr_negate e) = IsSimple e
IsSimple (expr_binary o l r) = IsOperator o × IsSimple l × IsSimple r
IsSimple (expr_cond c t e) = IsSimple c × IsSimple t × IsSimple e
IsSimple (expr_asgn (lvalue_id id) e) = IsSimple e
IsSimple e = ⊥
