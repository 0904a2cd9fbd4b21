-- ===== src/Interpreter/Machine.antt =====
-- execute.cc: the opcodes of `run`, in one frame.
use stunt.Prelude.{
  ℕ, suc, Bool, true, false, ◌&&◌, not, ◌==◌, List, [], ◌∷◌, get_elem?, get_or, set, if◌then◌else◌,
}
use mathlib.Core.Option.{Option, none, some}
use stunt.Value
use stunt.Value.{
  Error, e_type, e_varnf, e_quota, Var, int, obj, err, type_of, Floats, is_true, Items,
}
use stunt.Compiler.Syntax.{Binary, expr_plus}
use stunt.Compiler.Opcode.{op_pop}
use stunt.Compiler.State.{Cell, op, ref}
use stunt.Interpreter.Operators.{concat_or_add, binary_op}

-- What stays while a frame runs: the doubles, `RUN_ACTIV.debug`, `SVO_MAX_STRING_CONCAT`,
-- `SVO_MAX_CONCAT_CATCHABLE`, the code and the literals.
pub record Frame : Type 0 where
  pub floats : Floats
  pub debug : Bool
  pub max_concat : ℕ
  pub concat_catchable : Bool
  pub code : List Cell
  pub literals : List Var

-- `bv`, `rts` with the top first, `rt_env`, where `TYPE_NONE` is an unset variable, and `temp`.
pub record Machine : Type 0 where
  pub pc : ℕ
  pub rts : List Var
  pub rt_env : List Var
  pub temp : Var

-- What an opcode leads to: the next one; a raised error, for which `raise_error` looks for a handler;
-- the end of the task for want of seconds; the return from the frame; `stuck`, a panic or an
-- opcode that is not modelled.
pub data Outcome : Type 0 where
  running : Machine → Outcome
  raised : Error → List Var → Outcome
  aborted : Outcome
  returned : Var → Outcome
  stuck : Outcome

abbrev pub is_pop : Option Cell → Bool
is_pop (some (op op_pop)) = true
is_pop c = false

-- `READ_BYTES` of a label, a variable or a literal.
abbrev pub operand : Option Cell → ℕ
operand (some (ref f)) = f.value
operand c = 0

abbrev pub as_error : Var → Option Error
as_error (err e) = some e
as_error v = none

module _ (fr : Frame) where
  abbrev pub go : ℕ → List Var → Machine → Outcome
  go pc rts m = running (record m { pc = pc; rts = rts })

  -- `PUSH_ERROR`
  unfoldable pub push_error : Error → ℕ → List Var → Machine → Outcome
  push_error e pc rts m = if fr.debug then raised e m.rt_env else go pc (err e ∷ rts) m

  abbrev pub is_quota : Error → Bool
  is_quota e_quota = true
  is_quota e = false

  -- `PUSH_ERROR_UNLESS_QUOTA`
  unfoldable pub push_error_unless_quota : Error → ℕ → List Var → Machine → Outcome
  push_error_unless_quota e pc rts m =
      if is_quota e && not fr.concat_catchable then aborted else push_error e pc rts m

  -- The answer of an operator, or its error.
  unfoldable pub push_or_fail : Option Error → Var → ℕ → List Var → Machine → Outcome
  push_or_fail none v pc rts m = go pc (v ∷ rts) m
  push_or_fail (some e) v pc rts m = push_error e pc rts m

  unfoldable pub push_answer : Var → ℕ → List Var → Machine → Outcome
  push_answer v pc rts m = push_or_fail (as_error v) v pc rts m

  unfoldable pub sum_or_fail : Option Error → Var → ℕ → List Var → Machine → Outcome
  sum_or_fail none v pc rts m = go pc (v ∷ rts) m
  sum_or_fail (some e) v pc rts m = push_error_unless_quota e pc rts m

  unfoldable pub push_sum : Var → ℕ → List Var → Machine → Outcome
  push_sum v pc rts m = sum_or_fail (as_error v) v pc rts m

  unfoldable pub push_option : Option Var → ℕ → List Var → Machine → Outcome
  push_option none pc rts m = stuck
  push_option (some v) pc rts m = push_answer v pc rts m

  unfoldable pub run_binary : Binary → ℕ → List Var → Machine → Outcome
  run_binary expr_plus pc (r ∷ l ∷ rts) m =
      push_sum (concat_or_add fr.floats fr.max_concat l r) pc rts m
  run_binary o pc (r ∷ l ∷ rts) m = push_option (binary_op fr.floats fr.max_concat o l r) pc rts m
  run_binary o pc rts m = stuck

  -- `OP_PUSH` and `OP_G_PUSH`.
  unfoldable pub push_value : Var → ℕ → Machine → Outcome
  push_value v pc m = if type_of v == 6 then push_error e_varnf pc m.rts m else go pc (v ∷ m.rts) m

  -- `OP_PUT` before `OP_POP` pops.
  unfoldable pub put_value : ℕ → ℕ → List Var → Machine → Outcome
  put_value slot pc [] m = stuck
  put_value slot pc (v ∷ rts) m =
      if is_pop (get_elem? fr.code pc)
      then running (record { pc = suc pc; rts = rts; rt_env = set m.rt_env slot v; temp = m.temp })
      else running (record { pc = pc; rts = v ∷ rts; rt_env = set m.rt_env slot v; temp = m.temp })

  unfoldable pub g_put_value : ℕ → ℕ → List Var → Machine → Outcome
  g_put_value slot pc [] m = stuck
  g_put_value slot pc (v ∷ rts) m =
      running (record { pc = pc; rts = v ∷ rts; rt_env = set m.rt_env slot v; temp = m.temp })

  -- `OP_IMM` before `OP_POP` does nothing, and skips it.
  unfoldable pub run_imm : ℕ → Machine → Outcome
  run_imm pc m =
      if is_pop (get_elem? fr.code (suc pc))
      then go (suc (suc pc)) m.rts m
      else go (suc pc) (get_or fr.literals (operand (get_elem? fr.code pc)) Value.none ∷ m.rts) m

  -- `OP_IF`, `OP_EIF`, `OP_WHILE`, `OP_IF_QUES`.
  unfoldable pub do_test : ℕ → List Var → Machine → Outcome
  do_test pc [] m = stuck
  do_test pc (v ∷ rts) m =
      if is_true fr.floats v then go (suc pc) rts m else go (operand (get_elem? fr.code pc)) rts m

  -- `OP_AND` and `OP_OR`; the test tells whether the left value decides.
  unfoldable pub run_short : (Bool → Bool) → ℕ → List Var → Machine → Outcome
  run_short decides pc [] m = stuck
  run_short decides pc (v ∷ rts) m =
      if decides (is_true fr.floats v)
      then go (operand (get_elem? fr.code pc)) (v ∷ rts) m
      else go (suc pc) rts m
