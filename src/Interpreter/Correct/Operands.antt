-- ===== src/Interpreter/Correct/Operands.antt =====
-- The opcodes of operators and jumps, as `generate_expr` emits them.
use stunt.Prelude.{ℕ, ◌≡◌, refl, subst, false, not, List, [], ◌∷◌, ◌++◌}
use mathlib.Core.List.{append_assoc}
use mathlib.Core.Option.{Option, none, some}
use stunt.Value.{Var, is_true}
use stunt.Compiler.Syntax.{Binary, expr_plus}
use stunt.Compiler.Opcode.{Opcode, op_and, op_or, op_unary_minus, op_not}
use stunt.Compiler.State.{fixup_label, Fixup, Cell, op, ref, State}
use stunt.Compiler.Emit.{
  emit_cell, emit_byte, add_known_fixup, add_linked_fixup, count_label, add_linked_label, add_label,
  define_label, pop_stack,
}
use stunt.Compiler.Pieces.{binary_opcode, short_circuit}
use stunt.Interpreter.Operators.{binary_op, minus_op, not_op}
use stunt.Interpreter.Machine.{Frame, is_pop, push_option, run_binary, run_short}
use stunt.Interpreter.Step.{run_not, run_minus, exec}
use stunt.Interpreter.Eval.{value, answer}
use stunt.Interpreter.Correct.Runs.{machine, after}
use stunt.Interpreter.Correct.Answers.{push_answer-after}
use stunt.Interpreter.Correct.Compiled.{Meaning, Compiled}
use stunt.Interpreter.Correct.Branches.{Jumps, stays}

pub binary_opcode_not_pop : (o : Binary) → is_pop (some (op (binary_opcode o))) ≡ false
binary_opcode_not_pop expr_plus = refl
binary_opcode_not_pop o = refl

pub exec-binary_opcode :
    (o : Binary) (fr : Frame) (pc p : ℕ) (rts env : List Var) (temp v w : Var)
    → exec fr (binary_opcode o) pc (machine p (w ∷ v ∷ rts) env temp)
      ≡ run_binary fr o pc (w ∷ v ∷ rts) (machine p (w ∷ v ∷ rts) env temp)
unfolding exec run_binary binary_op push_option
exec-binary_opcode expr_plus fr pc p rts env temp v w = refl
exec-binary_opcode o fr pc p rts env temp v w = refl

pub and-Jumps : (fr : Frame) → Jumps fr op_and (λ fr v. not (is_true fr.floats v)) stays
unfolding exec run_short
and-Jumps fr pc p rts env temp v = refl

pub or-Jumps : (fr : Frame) → Jumps fr op_or (λ fr v. is_true fr.floats v) stays
unfolding exec run_short
or-Jumps fr pc p rts env temp v = refl

pub exec-op_not :
    (fr : Frame) (pc p : ℕ) (rts env : List Var) (temp v : Var)
    → exec fr op_not pc (machine p (v ∷ rts) env temp)
      ≡ after fr false pc rts temp (value (not_op fr.floats v) env)
unfolding exec run_not after
exec-op_not fr pc p rts env temp v = refl

pub exec-op_unary_minus :
    (fr : Frame) (pc p : ℕ) (rts env : List Var) (temp v : Var)
    → exec fr op_unary_minus pc (machine p (v ∷ rts) env temp)
      ≡ after fr false pc rts temp (answer fr (minus_op v) env)
unfolding exec run_minus
exec-op_unary_minus fr pc p rts env temp v =
    push_answer-after fr pc rts (machine p (v ∷ rts) env temp) (minus_op v)

pub rebase :
    (M : Meaning) (bs bs1 : List Cell) (ls : List Var) (bs' : List Cell) (ls' : List Var)
    → bs ≡ bs1
    → Compiled M bs ls bs' ls'
    → Compiled M bs1 ls bs' ls'
rebase M bs bs1 ls bs' ls' e c = subst (λ b. Compiled M b ls bs' ls') e c

-- The label that a jump is emitted with.
abbrev pub fresh : Opcode → State → Fixup
fresh o s = record { kind = fixup_label; value = 0; prev = s.num; next = none }

pub short_circuit-bytes :
    (o : Opcode) (s : State) → (short_circuit o s).bytes ≡ s.bytes ++ (op o ∷ ref (fresh o s) ∷ [])
unfolding short_circuit pop_stack add_label add_linked_label count_label add_linked_fixup
    add_known_fixup emit_cell emit_byte
short_circuit-bytes o s = append_assoc s.bytes (op o ∷ []) _

pub short_circuit-gstate : (o : Opcode) (s : State) → (short_circuit o s).gstate ≡ s.gstate
unfolding short_circuit pop_stack add_label add_linked_label count_label add_linked_fixup
    add_known_fixup emit_cell emit_byte
short_circuit-gstate o s = refl

pub define_label-gstate : (at : Option ℕ) (s : State) → (define_label at s).gstate ≡ s.gstate
unfolding define_label
define_label-gstate at s = refl
