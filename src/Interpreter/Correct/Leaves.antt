-- ===== src/Interpreter/Correct/Leaves.antt =====
-- The code of constants and of variables.
use stunt.Prelude.{
  ℕ, suc, ◌+◌, ◌≡◌, refl, sym, ap, ◌∙◌, true, false, List, [], ◌∷◌, ◌++◌, arith, length, get_or,
  ◌==◌, leb, Bool-cases, inl, inr,
}
use mathlib.Core.List.{append_assoc, append-nil}
use mathlib.Core.Option.{some}
use stunt.Prelude.Int.{ℤ}
use stunt.Value
use stunt.Value.{Var, Floats, type_of}
use stunt.Compiler.Opcode.{Opcode, op_push, op_g_push, op_imm, optim_num, num_ready_vars}
use stunt.Compiler.State.{Fixup, Cell, op, ref, State}
use stunt.Compiler.Emit.{
  emit_cell, emit_byte, add_known_fixup, add_linked_fixup, intern, count_literal, add_literal,
  count_var_ref, add_var_ref, push_stack, emit_var_op,
}
use stunt.Compiler.Pieces.{is_optim_num, optim_num_to_opcode, generate_var, push_id}
use stunt.Compiler.Scoped.{IsLiteral}
use stunt.Compiler.Balance.Parts.{literal_slot_answers}
use stunt.Interpreter.Correct.Slots.{intern-get_or}
use stunt.Interpreter.Machine.{Frame, running, is_pop, operand, run_imm}
use stunt.Interpreter.Step.{exec}
use stunt.Interpreter.Eval.{value, look_up, IsConstant}
use stunt.Interpreter.Correct.Places.{Stands, Stands-head, Stands-tail, Tables}
use stunt.Interpreter.Correct.Runs.{machine, after, pops_at}
use stunt.Interpreter.Correct.Answers.{push_value-after}
use stunt.Interpreter.Correct.Compiled.{Meaning, Computes, Compiled, ends_at, settled, one}

-- One opcode with its operand.
abbrev Alone : Meaning → Opcode → List Cell → List Var → Type 0
Alone M o cs ls =
    (fr : Frame) (pc : ℕ)
    → Stands fr pc (op o ∷ cs)
    → Tables fr ls
    → Computes fr M pc (pc + length (op o ∷ cs))

alone :
    (M : Meaning) (o : Opcode) (cs : List Cell) (bs : List Cell) (ls : List Var) (bs' : List Cell)
    → (ls' more : List Var) → bs' ≡ bs ++ (op o ∷ cs)
    → ls' ≡ ls ++ more
    → is_pop (some (op o)) ≡ false
    → Alone M o cs ls'
    → Compiled M bs ls bs' ls'
alone M o cs bs ls bs' ls' more e el np a = record {
  cells = op o ∷ cs;
  bytes = e;
  starts = np;
  more = more;
  table = el;
  correct = λ fr pc k h t. a fr pc h t;
}

alone_here :
    (M : Meaning) (o : Opcode) (cs : List Cell) (bs : List Cell) (ls : List Var) (bs' : List Cell)
    → bs' ≡ bs ++ (op o ∷ cs)
    → is_pop (some (op o)) ≡ false
    → Alone M o cs ls
    → Compiled M bs ls bs' ls
alone_here M o cs bs ls bs' e np a = alone M o cs bs ls bs' ls [] e (sym (append-nil ls)) np a

push_small : (n : ℤ) (ls : List Var) → Alone (λ fr env. value (Value.int n) env) (optim_num n) [] ls
unfolding exec after
push_small n ls fr pc h t =
    settled fr (λ fr env. value (Value.int n) env) pc (suc pc) _ (omega arith)
      (λ rts env temp. one fr (optim_num n) [] (machine pc rts env temp) _ h refl)

push_literal :
    (v : Var) (f : Fixup) (ls : List Var)
    → ((rest : List Var) → get_or (ls ++ rest) f.value Value.none ≡ v)
    → Alone (λ fr env. value v env) op_imm (ref f ∷ []) ls
unfolding exec after run_imm
push_literal v f ls g fr pc h t =
    let c = Stands-head fr (suc pc) (ref f) [] (Stands-tail fr pc (op op_imm) _ h) in
    let e =
      ap (λ x. get_or fr.literals (operand x) Value.none) c
      ∙ ap (λ l. get_or l f.value Value.none) t.table
      ∙ g t.more in
    ends_at fr (λ fr env. value v env) pc (suc (suc pc)) _ (omega arith)
      (λ rts env temp.
        one fr op_imm (ref f ∷ []) (machine pc rts env temp) _ h
          (elim (Bool-cases (pops_at fr (suc (suc pc)))) [
            | inl q ↦ rw (q, run_imm) refl
            | inr q ↦
                rw (q, run_imm) (ap (λ x. running (machine (suc (suc pc)) (x ∷ rts) env temp)) e)
          ]))

push_variable :
    (slot : ℕ) (ls : List Var)
    → Alone (λ fr env. look_up fr (get_or env slot Value.none) env) (op_push slot) [] ls
unfolding exec
push_variable slot ls fr pc h t =
    settled fr (λ fr env. look_up fr (get_or env slot Value.none) env) pc (suc pc) _ (omega arith)
      (λ rts env temp.
        one fr (op_push slot) [] (machine pc rts env temp) _ h
          (push_value-after fr (suc pc) (machine pc rts env temp) (get_or env slot Value.none)))

g_push_variable :
    (f : Fixup) (ls : List Var)
    → Alone (λ fr env. look_up fr (get_or env f.value Value.none) env) op_g_push (ref f ∷ []) ls
unfolding exec
g_push_variable f ls fr pc h t =
    settled fr (λ fr env. look_up fr (get_or env f.value Value.none) env) pc (suc (suc pc)) _
      (omega arith)
      (λ rts env temp. one fr op_g_push (ref f ∷ []) (machine pc rts env temp) _ h (
        rw (Stands-head fr (suc pc) (ref f) [] (Stands-tail fr pc (op op_g_push) _ h)) (
          push_value-after fr (suc (suc pc)) (machine pc rts env temp)
            (get_or env f.value Value.none))))

small :
    (v : Var) (bs : List Cell) (ls : List Var)
    → is_optim_num v ≡ true
    → Compiled (λ fr env. value v env) bs ls (bs ++ (op (optim_num_to_opcode v) ∷ [])) ls
unfolding is_optim_num optim_num_to_opcode
small (Value.int n) bs ls h = alone_here _ (optim_num n) [] bs ls _ refl refl (push_small n ls)
small v bs ls h = absurd (ground (arith, h))

constant-IsLiteral : (v : Var) → IsConstant v → IsLiteral v
constant-IsLiteral (Value.int n) h = h
constant-IsLiteral (Value.obj n) h = h
constant-IsLiteral (Value.str n) h = h
constant-IsLiteral (Value.err n) h = h
constant-IsLiteral v h = elim h [ ]

intern_more : (v : Var) (i : ℕ) (ls : List Var) → (more : List Var) × (intern v i ls ≡ ls ++ more)
intern_more v i ls = elim (Bool-cases (i == length ls)) [
  | inl e ↦ (v ∷ [], rw e refl)
  | inr e ↦ ([], rw e (sym (append-nil ls)))
]

literal :
    (f : Floats) (v : Var) (s : State)
    → IsConstant v
    → Compiled
        (λ fr env. value v env)
        s.bytes
        s.gstate.literals
        (add_literal f v (emit_byte op_imm s)).bytes
        (add_literal f v (emit_byte op_imm s)).gstate.literals
unfolding add_literal count_literal add_linked_fixup add_known_fixup emit_byte emit_cell
literal f v s h =
    let (i, e) = literal_slot_answers f v s.gstate.literals (constant-IsLiteral v h) in
    let (more, m) = intern_more v i s.gstate.literals in
    rw (e, add_literal)
      (alone (λ fr env. value v env) op_imm _ s.bytes s.gstate.literals _ _ more
        (append_assoc s.bytes (op op_imm ∷ []) _) m refl
        (push_literal v _ (intern v i s.gstate.literals)
          (λ rest. intern-get_or f v s.gstate.literals i rest h e)))

pub generate_var-Compiled :
    (f : Floats) (v : Var) (s : State)
    → IsConstant v
    → Compiled
        (λ fr env. value v env)
        s.bytes
        s.gstate.literals
        (generate_var f v s).bytes
        (generate_var f v s).gstate.literals
unfolding generate_var push_stack emit_byte emit_cell
generate_var-Compiled f v s h = elim (Bool-cases (is_optim_num v)) [
  | inl o ↦ rw o (small v s.bytes s.gstate.literals o)
  | inr o ↦ rw o (literal f v s h)
]

pub push_id-Compiled :
    (id : ℕ) (s : State)
    → Compiled
        (λ fr env. look_up fr (get_or env id Value.none) env)
        s.bytes
        s.gstate.literals
        (push_id id s).bytes
        (push_id id s).gstate.literals
unfolding push_id push_stack emit_var_op emit_byte emit_cell add_var_ref count_var_ref
    add_linked_fixup add_known_fixup
push_id-Compiled id s = elim (Bool-cases (leb num_ready_vars id)) [
  | inl h ↦ rw h (
      alone_here _ op_g_push _ s.bytes _ _ (append_assoc s.bytes (op op_g_push ∷ []) _) refl
        (g_push_variable _ _))
  | inr h ↦ rw h (alone_here _ (op_push id) [] s.bytes _ _ refl refl (push_variable id _))
]
