-- ===== src/Interpreter/Correct/Stores.antt =====
-- The code of the assignment to a variable.
use stunt.Prelude.{
  ℕ, suc, ◌+◌, ◌≡◌, refl, ap, ◌∙◌, false, List, [], ◌∷◌, ◌++◌, arith, length, length-append, set,
  leb, Bool-cases, inl, inr,
}
use mathlib.Core.List.{append_assoc}
use mathlib.Core.Option.{some}
use stunt.Value.{Var}
use stunt.Compiler.Opcode.{Opcode, op_put, op_g_put, num_ready_vars}
use stunt.Compiler.State.{Fixup, Cell, op, ref, State}
use stunt.Compiler.Emit.{
  emit_cell, emit_byte, add_known_fixup, add_linked_fixup, count_var_ref, add_var_ref, emit_var_op,
}
use stunt.Interpreter.Machine.{Frame, running, is_pop, put_value, g_put_value}
use stunt.Interpreter.Step.{exec}
use stunt.Interpreter.Eval.{Result, value}
use stunt.Interpreter.Correct.Places.{
  Stands, Stands-left, Stands-right, Stands-head, Stands-tail, Starts-append, Stands-Starts,
}
use stunt.Interpreter.Correct.Runs.{
  machine, Reaches, reaches_then, after, pops_at, settle, and_then-Reaches,
}
use stunt.Interpreter.Correct.Compiled.{Meaning, Compiled, ends_at, pushes, one, bind}

-- A last opcode on the value of the code before it.
last :
    (M : Meaning) (g : Frame → Var → List Var → Result) (o : Opcode) (cs : List Cell)
    → ((fr : Frame) (pc : ℕ)
        → Stands fr pc (op o ∷ cs)
        → (rts env : List Var) (temp v : Var)
        → Reaches fr (running (machine pc (v ∷ rts) env temp)) (
            after fr
              (pops_at fr (pc + length (op o ∷ cs)))
              (pc + length (op o ∷ cs))
              rts
              temp
              (g fr v env)))
    → is_pop (some (op o)) ≡ false
    → (bs : List Cell) (ls : List Var) (bs1 : List Cell) (ls1 : List Var) (bs2 : List Cell)
    → bs2 ≡ bs1 ++ (op o ∷ cs)
    → Compiled M bs ls bs1 ls1
    → Compiled (bind M g) bs ls bs2 ls1
last M g o cs ex np bs ls bs1 ls1 bs2 e2 c = record {
  cells = c.cells ++ (op o ∷ cs);
  bytes = e2 ∙ ap (λ t. t ++ (op o ∷ cs)) c.bytes ∙ append_assoc bs c.cells (op o ∷ cs);
  starts = Starts-append c.cells _ c.starts;
  more = c.more;
  table = c.table;
  correct = λ fr pc k h t.
      let mid = pc + length c.cells in
      let h2 = Stands-right fr pc c.cells (op o ∷ cs) h in
      let p1 =
        pushes fr M pc mid (Stands-Starts fr mid _ h2 np)
          (c.correct fr pc k (Stands-left fr pc c.cells _ h) t) in
      let e : mid + length (op o ∷ cs) ≡ pc + length (c.cells ++ (op o ∷ cs)) =
        omega (arith, length-append c.cells (op o ∷ cs)) in
      ends_at fr (bind M g) pc (mid + length (op o ∷ cs)) _ e (λ rts env temp.
        and_then-Reaches fr _ mid _ rts rts temp (M fr env) (g fr) _ (p1 rts env temp)
          (λ v env'. ex fr mid h2 rts env' temp v));
}

-- An assignment, before `OP_POP` or other code.
abbrev pub stored : ℕ → Frame → Var → List Var → Result
stored slot fr v env = value v (set env slot v)

put_variable :
    (slot : ℕ) (fr : Frame) (pc : ℕ)
    → Stands fr pc (op (op_put slot) ∷ [])
    → (rts env : List Var) (temp v : Var)
    → Reaches fr
        (running (machine pc (v ∷ rts) env temp))
        (after fr (pops_at fr (pc + 1)) (pc + 1) rts temp (stored slot fr v env))
unfolding exec after put_value
put_variable slot fr pc h rts env temp v =
    let e : suc pc ≡ pc + 1 = omega arith in
    one fr (op_put slot) [] (machine pc (v ∷ rts) env temp) _ h (
      rw⁻¹ e (elim (Bool-cases (pops_at fr (suc pc))) [
        | inl q ↦ rw (q, put_value) refl
        | inr q ↦ rw (q, put_value) refl
      ]))

g_put_variable :
    (f : Fixup) (fr : Frame) (pc : ℕ)
    → Stands fr pc (op op_g_put ∷ ref f ∷ [])
    → (rts env : List Var) (temp v : Var)
    → Reaches fr
        (running (machine pc (v ∷ rts) env temp))
        (after fr (pops_at fr (pc + 2)) (pc + 2) rts temp (stored f.value fr v env))
unfolding exec g_put_value
g_put_variable f fr pc h rts env temp v =
    let e : suc (suc pc) ≡ pc + 2 = omega arith in
    reaches_then fr _ _ _
      (one fr op_g_put (ref f ∷ []) (machine pc (v ∷ rts) env temp)
        (after fr false (pc + 2) rts temp (stored f.value fr v env)) h
        (rw (Stands-head fr (suc pc) (ref f) [] (Stands-tail fr pc (op op_g_put) _ h))
          (rw⁻¹ e (unfold after in refl))))
      (settle fr (pc + 2) rts temp (stored f.value fr v env))

pub store-Compiled :
    (M : Meaning) (id : ℕ) (bs : List Cell) (ls : List Var) (s : State)
    → Compiled M bs ls s.bytes s.gstate.literals
    → Compiled
        (bind M (stored id))
        bs
        ls
        (emit_var_op op_put op_g_put id s).bytes
        (emit_var_op op_put op_g_put id s).gstate.literals
unfolding emit_var_op emit_byte emit_cell add_var_ref count_var_ref add_linked_fixup add_known_fixup
store-Compiled M id bs ls s c = elim (Bool-cases (leb num_ready_vars id)) [
  | inl h ↦ rw h (
      last M (stored id) op_g_put _ (g_put_variable _) refl bs ls _ _ _
        (append_assoc s.bytes (op op_g_put ∷ []) _) c)
  | inr h ↦ rw h (last M (stored id) (op_put id) [] (put_variable id) refl bs ls _ _ _ refl c)
]
