-- ===== src/Interpreter/Step.antt =====
-- execute.cc: the loop of `run` over the opcodes, ticks left out.
use stunt.Prelude.{ℕ, zero, suc, not, List, [], ◌∷◌, get_elem?, get_or, set, if◌then◌else◌}
use mathlib.Core.Option.{Option, none, some}
use stunt.Prelude.Int.{ℤ, pos, ◌+ℤ◌, ◌-ℤ◌, ltb_ℤ}
use stunt.Int32.{maxint}
use stunt.Value
use stunt.Value.{Error, e_type, Var, int, obj, list, nil, cons, type_of, Floats, is_true}
use stunt.Compiler.Syntax.{
  expr_plus, expr_minus, expr_times, expr_divide, expr_mod, expr_eq, expr_ne, expr_lt, expr_le,
  expr_gt, expr_ge,
}
use stunt.Compiler.Opcode.{
  Opcode, op_if, op_while, op_eif, op_for_range, op_if_ques, op_make_singleton_list,
  op_check_list_for_splice, op_mult, op_div, op_mod, op_add, op_minus, op_eq, op_ne, op_lt, op_le,
  op_gt, op_ge, op_and, op_or, op_unary_minus, op_not, op_put, op_push, op_g_put, op_g_push, op_imm,
  op_make_empty_list, op_put_temp, op_push_temp, op_jump, op_return, op_return0, op_done, op_pop,
  optim_num,
}
use stunt.Compiler.State.{op}
use stunt.Interpreter.Operators.{minus_op, not_op}
use stunt.Interpreter.Machine.{
  Frame, Machine, Outcome, running, raised, returned, stuck, operand, go, push_error, push_answer,
  run_binary, push_value, put_value, g_put_value, run_imm, do_test, run_short,
}

-- `OP_FOR_RANGE` on `from` and `to` of one type, with its constructor: `none` leaves the loop; or the
-- next `from` and `to`.
unfoldable pub next_range : ℤ → ℤ → Option (ℤ × ℤ)
next_range from to =
    if ltb_ℤ to from
    then none
    else if ltb_ℤ from maxint
    then some (from +ℤ pos 1, to)
    else some (from, to -ℤ pos 1)

module _ (fr : Frame) where
  unfoldable pub loop_on : (ℤ → Var) → ℤ → Option (ℤ × ℤ) → ℕ → List Var → Machine → Outcome
  loop_on make from none pc rts m = go fr (operand (get_elem? fr.code (suc pc))) rts m
  loop_on make from (some (from', to')) pc rts m = running (record {
    pc = suc (suc pc);
    rts = make to' ∷ make from' ∷ rts;
    rt_env = set m.rt_env (operand (get_elem? fr.code pc)) (make from);
    temp = m.temp;
  })

  -- The variable and the label follow; `to` is on the top.
  unfoldable pub run_for_range : ℕ → List Var → Machine → Outcome
  run_for_range pc (int to ∷ int from ∷ rts) m = loop_on int from (next_range from to) pc rts m
  run_for_range pc (obj to ∷ obj from ∷ rts) m = loop_on obj from (next_range from to) pc rts m
  run_for_range pc (to ∷ from ∷ rts) m =
      if fr.debug
      then raised e_type m.rt_env
      else go fr (operand (get_elem? fr.code (suc pc))) rts m
  run_for_range pc rts m = stuck

  unfoldable pub run_pop : ℕ → List Var → Machine → Outcome
  run_pop pc [] m = stuck
  run_pop pc (v ∷ rts) m = go fr pc rts m

  unfoldable pub run_not : ℕ → List Var → Machine → Outcome
  run_not pc [] m = stuck
  run_not pc (v ∷ rts) m = go fr pc (not_op fr.floats v ∷ rts) m

  unfoldable pub run_minus : ℕ → List Var → Machine → Outcome
  run_minus pc [] m = stuck
  run_minus pc (v ∷ rts) m = push_answer fr (minus_op v) pc rts m

  unfoldable pub run_return : List Var → Outcome
  run_return [] = stuck
  run_return (v ∷ rts) = returned v

  unfoldable pub run_singleton : ℕ → List Var → Machine → Outcome
  run_singleton pc [] m = stuck
  run_singleton pc (v ∷ rts) m = go fr pc (list (cons v nil) ∷ rts) m

  unfoldable pub run_check_splice : ℕ → List Var → Machine → Outcome
  run_check_splice pc [] m = stuck
  run_check_splice pc (list xs ∷ rts) m = go fr pc (list xs ∷ rts) m
  run_check_splice pc (v ∷ rts) m = push_error fr e_type pc rts m

  unfoldable pub run_put_temp : ℕ → List Var → Machine → Outcome
  run_put_temp pc [] m = stuck
  run_put_temp pc (v ∷ rts) m = running (record m { pc = pc; temp = v })

  unfoldable pub run_push_temp : ℕ → Machine → Outcome
  run_push_temp pc m = running (record m { pc = pc; rts = m.temp ∷ m.rts; temp = Value.none })

  -- The opcode, with the place after it.
  unfoldable pub exec : Opcode → ℕ → Machine → Outcome
  exec op_if_ques pc m = do_test fr pc m.rts m
  exec op_if pc m = do_test fr pc m.rts m
  exec op_while pc m = do_test fr pc m.rts m
  exec op_eif pc m = do_test fr pc m.rts m
  exec op_jump pc m = go fr (operand (get_elem? fr.code pc)) m.rts m
  exec op_for_range pc m = run_for_range pc m.rts m
  exec op_pop pc m = run_pop pc m.rts m
  exec op_imm pc m = run_imm fr pc m
  exec op_make_empty_list pc m = go fr pc (list nil ∷ m.rts) m
  exec op_make_singleton_list pc m = run_singleton pc m.rts m
  exec op_check_list_for_splice pc m = run_check_splice pc m.rts m
  exec op_put_temp pc m = run_put_temp pc m.rts m
  exec op_push_temp pc m = run_push_temp pc m
  exec op_eq pc m = run_binary fr expr_eq pc m.rts m
  exec op_ne pc m = run_binary fr expr_ne pc m.rts m
  exec op_lt pc m = run_binary fr expr_lt pc m.rts m
  exec op_le pc m = run_binary fr expr_le pc m.rts m
  exec op_gt pc m = run_binary fr expr_gt pc m.rts m
  exec op_ge pc m = run_binary fr expr_ge pc m.rts m
  exec op_mult pc m = run_binary fr expr_times pc m.rts m
  exec op_minus pc m = run_binary fr expr_minus pc m.rts m
  exec op_div pc m = run_binary fr expr_divide pc m.rts m
  exec op_mod pc m = run_binary fr expr_mod pc m.rts m
  exec op_add pc m = run_binary fr expr_plus pc m.rts m
  exec op_and pc m = run_short fr not pc m.rts m
  exec op_or pc m = run_short fr (λ b. b) pc m.rts m
  exec op_not pc m = run_not pc m.rts m
  exec op_unary_minus pc m = run_minus pc m.rts m
  exec (op_put slot) pc m = put_value fr slot pc m.rts m
  exec op_g_put pc m = g_put_value fr (operand (get_elem? fr.code pc)) (suc pc) m.rts m
  exec (op_push slot) pc m = push_value fr (get_or m.rt_env slot Value.none) pc m
  exec op_g_push pc m =
      push_value fr (get_or m.rt_env (operand (get_elem? fr.code pc)) Value.none) (suc pc) m
  exec op_return pc m = run_return m.rts
  exec op_return0 pc m = returned (int (pos 0))
  exec op_done pc m = returned (int (pos 0))
  exec (optim_num n) pc m = go fr pc (int n ∷ m.rts) m
  exec o pc m = stuck

  unfoldable pub step : Machine → Outcome
  step m = elim (get_elem? fr.code m.pc) [ some (op o) ↦ exec o (suc m.pc) m | other ↦ stuck ]

  abbrev pub step_on : Outcome → Outcome
  step_on (running m) = step m
  step_on o = o

  -- So many opcodes, or fewer where the frame stops.
  unfoldable pub run : ℕ → Outcome → Outcome
  run zero o = o
  run (suc n) o = run n (step_on o)
