-- ===== src/Interpreter/Correct/Return.antt =====
-- A whole program, `return e;`, from its text to the returned value.
use stunt.Prelude.{
  ℕ, ◌+◌, ◌-◌, ◌≡◌, refl, sym, ap, ◌∙◌, false, List, [], ◌∷◌, ◌++◌, length, ◌==◌, Bool-cases, inl,
  inr,
}
use mathlib.Core.List.{append_assoc, append-nil}
use mathlib.Core.Option.{Option, none, some}
use stunt.Value.{Var, Floats}
use stunt.Compiler.Syntax.{Expr, present, stmt_end, stmt_return}
use stunt.Compiler.Opcode.{op_return, op_done}
use stunt.Compiler.State.{Cell, op, GState, State, init_gstate, init_state}
use stunt.Compiler.Emit.{panic, emit_cell, emit_byte, pop_stack}
use stunt.Compiler.Generate.{generate_expr}
use stunt.Compiler.Generate.Statements.{
  check_stack, finish_code, generate_return, generate_stmt, stmt_to_code,
}
use stunt.Interpreter.Machine.{Frame, Outcome, running, raised, aborted, returned, stuck}
use stunt.Interpreter.Step.{run_return, exec, run}
use stunt.Interpreter.Eval.{Result, value, raises, aborts, outside, eval, IsSimple}
use stunt.Interpreter.Correct.Places.{Stands, Stands-left, Stands-right, Tables, Stands-Starts}
use stunt.Interpreter.Correct.Runs.{machine, Reaches, reaches_refl, reaches_then, after}
use stunt.Interpreter.Correct.Compiled.{pushes, one}
use stunt.Interpreter.Correct.Exprs.{generate_expr-Compiled}

check_stack-code :
    (cur : ℕ) (saved : Option ℕ) (s : State)
    → ((check_stack cur saved s).bytes ≡ s.bytes) × ((check_stack cur saved s).gstate ≡ s.gstate)
unfolding check_stack panic
check_stack-code cur none s = elim (Bool-cases (cur == 0)) [
  | inl h ↦ rw h (refl, refl)
  | inr h ↦ rw h (refl, refl)
]
check_stack-code cur (some saved) s = (refl, refl)

-- The program `return e;`.
abbrev pub return_of : Floats → Expr → State
return_of f e = stmt_to_code f (stmt_return (present e) stmt_end) init_gstate

-- How the frame of the program ends, by the meaning of the expression.
unfoldable pub ending : Result → Outcome
ending (value v env) = returned v
ending (raises e env) = raised e env
ending aborts = aborted
ending outside = stuck

return_of-code :
    (f : Floats) (e : Expr)
    → let s = generate_expr f e (init_state init_gstate) in
      ((return_of f e).bytes ≡ s.bytes ++ (op op_return ∷ op op_done ∷ []))
      × ((return_of f e).gstate ≡ s.gstate)
unfolding stmt_to_code finish_code generate_stmt generate_return pop_stack emit_byte emit_cell
return_of-code f e =
    let s = generate_expr f e (init_state init_gstate) in
    let (b, g) =
      check_stack-code (s.cur_stack - 1) s.saved_stack
        (emit_byte op_done (pop_stack 1 (emit_byte op_return s))) in
    (b ∙ append_assoc s.bytes (op op_return ∷ []) (op op_done ∷ []), g)

returns :
    (fr : Frame) (mid : ℕ) (cs : List Cell) (temp : Var) (r : Result)
    → Stands fr mid (op op_return ∷ cs)
    → Reaches fr (after fr false mid [] temp r) (ending r)
unfolding after ending
returns fr mid cs temp (value v env) h =
    one fr op_return cs (machine mid (v ∷ []) env temp) _ h (unfold exec run_return in refl)
returns fr mid cs temp (raises e env) h = reaches_refl fr _
returns fr mid cs temp aborts h = reaches_refl fr _
returns fr mid cs temp outside h = reaches_refl fr _

-- For an expression e that is made of literal integers, object numbers, strings and errors, of
-- variables, assignments to variables, `&&`, `||`, `!`, the unary minus, the conditional, and the
-- operators `+ - * / % == != < <= > >=`, and of nothing else: the code of `return e;`, run from its
-- start with an empty stack and any variables, ends, and it returns the value of the expression, or it
-- raises its error, ends the task, or panics, as the expression does.
pub run-return :
    (f : Floats) (e : Expr) (fr : Frame) (env : List Var) (temp : Var)
    → IsSimple e
    → fr.code ≡ (return_of f e).bytes
    → fr.literals ≡ (return_of f e).gstate.literals
    → (n : ℕ) × (run fr n (running (machine 0 [] env temp)) ≡ ending (eval fr e env))
run-return f e fr env temp h hc hl =
    let s0 = init_state init_gstate in
    let c = generate_expr-Compiled f e s0 h in
    let (b, g) = return_of-code f e in
    let tail = op op_return ∷ op op_done ∷ [] in
    let start : [] ≡ s0.bytes = unfold init_state in refl in
    let h0 : Stands fr 0 (c.cells ++ tail) = record {
      pre = [];
      rest = [];
      whole =
          hc
          ∙ b
          ∙ ap (λ t. t ++ tail) (c.bytes ∙ ap (λ t. t ++ c.cells) (sym start))
          ∙ sym (append-nil (c.cells ++ tail));
      place = refl;
    } in
    let t0 : Tables fr (generate_expr f e s0).gstate.literals = record {
      more = [];
      table = hl ∙ ap (λ (x : GState). x.literals) g ∙ sym (append-nil _);
    } in
    let mid = 0 + length c.cells in
    let h1 = Stands-right fr 0 c.cells tail h0 in
    let p =
      pushes fr (λ fr env. eval fr e env) 0 mid (Stands-Starts fr mid tail h1 refl)
        (c.correct fr 0 (sym (ap length start)) (Stands-left fr 0 c.cells tail h0) t0) in
    let r =
      reaches_then fr _ _ _ (p [] env temp)
        (returns fr mid (op op_done ∷ []) temp (eval fr e env) h1) in
    (r.steps, r.reaches)
