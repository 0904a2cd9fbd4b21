-- ===== src/Compiler/Balance/Stmts.antt =====
-- The code of a statement leaves the stack as it was, and a program has its code.
use stunt.Prelude.{ℕ, ◌+◌, ◌*◌, ◌≡◌, refl, sym, subst, ◌∙◌, true, false, List, [], ◌∷◌, map, arith}
use mathlib.Core.Option.{Option, none, some}
use stunt.Value.{Floats}
use stunt.Compiler.Syntax.{
  Expr, Stmt, stmt_end, stmt_cond, stmt_list, stmt_range, stmt_while, stmt_fork, stmt_expr,
  stmt_return, stmt_try_except, stmt_try_finally, stmt_break, stmt_continue, CondArm, no_arms,
  cond_arm, ExceptArm, no_excepts, except_arm,
}
use stunt.Compiler.Scoped.{IsScoped, Names, has_loop, IsProgram, AreArms, AreExcepts}
use stunt.Compiler.State.{State, init_gstate, init_state}
use stunt.Compiler.Opcode.{
  eop_end_except, eop_continue, eop_try_except, eop_try_finally, Opcode, op_eif, op_for_range,
  op_jump, op_pop,
}
use stunt.Compiler.Emit.{capture_label}
use stunt.Compiler.Generate.{generate_expr}
use stunt.Compiler.Generate.Statements.{
  count_excepts, Program, program_of, generate_stmt, generate_arms, generate_excepts, stmt_to_code,
  generate_code,
}
use stunt.Compiler.Balance.{
  names_of, Lifts, lifts_none, lifts_then, lifts_as, push_stack-Lifts, pop_stack-Lifts,
  emit_byte-Lifts, emit_raw-Lifts, add_var_ref-Lifts, add_linked_label-Lifts, define_label-Lifts,
  emit_extended_byte-Lifts, add_label-Lifts,
}
use stunt.Compiler.Balance.Exprs.{generate_expr-Lifts}
use stunt.Compiler.Balance.Loops.{Keeps, looped, generate_break-Lifts, generate_continue-Lifts}
use stunt.Compiler.Balance.Steps.{
  finish_code-alive, closed, follow, generate_return-Lifts, push_index-Lifts, emit_for_list-Lifts,
  emit_while-Lifts, emit_fork-Lifts, take_gstate-Lifts, put_exception-Lifts, push_excepts-Lifts,
}

one_more : (n : ℕ) → 1 + (n + 0) ≡ n + 1 + 0
one_more n = omega arith

module _ (f : Floats) where
  expr : (e : Expr) (s : State) → IsScoped false e → Lifts 1 s (generate_expr f e s)
  expr e s h = generate_expr-Lifts f false e s h (closed s)

  mutual
    unfolding generate_stmt IsProgram init_state capture_label

    keeps :
        (loops : List Names) (stmt : Stmt)
        → IsProgram loops stmt
        → Keeps loops (generate_stmt f stmt)
    keeps loops stmt_end p s h = lifts_none s
    keeps loops (stmt_cond arms otherwise next) (pa, po, pn) s h =
        follow 0 loops _ s _ h
          (arms_keep loops arms pa (generate_stmt f otherwise) (keeps loops otherwise po) _ _ s h)
          (keeps loops next pn)
    keeps loops (stmt_list id index e body next) (pe, pb, pn) s h =
        let a1 = push_index-Lifts f 1 s _ (expr e s pe) in
        let a2 = emit_for_list-Lifts f id index 2 s _ a1 in
        let a3 =
          lifts_then 2 0 s _ _ a2
            (looped _ index _ 2 _ _ loops refl (a2.loops ∙ h) (keeps _ body pb)) in
        follow 0 loops _ s _ h (pop_stack-Lifts 2 0 s _ a3) (keeps loops next pn)
    keeps loops (stmt_range id from to body next) (pf, pt, pb, pn) s h =
        let a1 = lifts_then 1 1 s _ _ (expr from s pf) (expr to _ pt) in
        let a2 = add_var_ref-Lifts 2 s _ (emit_byte-Lifts 2 s _ a1 op_for_range) id in
        let a3 =
          lifts_then 2 0 s _ _ a2
            (looped _ none _ 2 _ _ loops refl (a2.loops ∙ h) (keeps _ body pb)) in
        follow 0 loops _ s _ h (pop_stack-Lifts 2 0 s _ a3) (keeps loops next pn)
    keeps loops (stmt_while id c body next) (pc, pb, pn) s h =
        let a1 = pop_stack-Lifts 1 0 s _ (emit_while-Lifts f id 1 s _ (expr c s pc)) in
        let a2 =
          lifts_then 0 0 s _ _ a1
            (looped id none _ 0 _ _ loops refl (a1.loops ∙ h) (keeps _ body pb)) in
        follow 0 loops _ s _ h a2 (keeps loops next pn)
    keeps loops (stmt_fork id time body next) (pt, pb, pn) s h =
        let a1 = expr time s pt in
        let g = (generate_expr f time s).gstate in
        let inner = finish_code-alive g _ (keeps [] body pb (init_state g) refl) in
        let a2 = emit_fork-Lifts f id _ 1 s _ (take_gstate-Lifts f _ 1 s _ inner a1) in
        follow 0 loops _ s _ h (pop_stack-Lifts 1 0 s _ a2) (keeps loops next pn)
    keeps loops (stmt_expr e next) (pe, pn) s h =
        follow 0 loops _ s _ h
          (pop_stack-Lifts 1 0 s _ (emit_byte-Lifts 1 s _ (expr e s pe) op_pop))
          (keeps loops next pn)
    keeps loops (stmt_return e next) (pe, pn) s h =
        follow 0 loops _ s _ h (generate_return-Lifts f e s pe) (keeps loops next pn)
    keeps loops (stmt_try_except body excepts next) (pb, px, pn) s h =
        let n = 2 * count_excepts excepts in
        let a1 = push_excepts-Lifts f loops excepts 0 s s px (lifts_none s) in
        let a2 = emit_raw-Lifts _ s _ (emit_extended_byte-Lifts _ s _ a1 eop_try_except) _ in
        let a3 = follow _ loops _ s _ h (push_stack-Lifts 1 _ s _ a2) (keeps loops body pb) in
        let a4 = add_label-Lifts _ s _ (emit_extended_byte-Lifts _ s _ a3 eop_end_except) in
        let a5 =
          pop_stack-Lifts (n + 1) 0 s _ (lifts_as (1 + (n + 0)) (n + 1 + 0) s _ (one_more n) a4) in
        follow 0 loops _ s _ h (follow 0 loops _ s _ h a5 (excepts_keep loops excepts px _ _))
          (keeps loops next pn)
    keeps loops (stmt_try_finally body handler next) (pb, ph, pn) s h =
        let a1 = emit_extended_byte-Lifts 0 s s (lifts_none s) eop_try_finally in
        let a2 = push_stack-Lifts 1 0 s _ (add_label-Lifts 0 s _ a1) in
        let a3 =
          emit_extended_byte-Lifts 1 s _ (follow 1 loops _ s _ h a2 (keeps loops body pb)) _ in
        let a4 = define_label-Lifts 0 s _ (pop_stack-Lifts 1 0 s _ a3) _ in
        let a5 = follow 2 loops _ s _ h (push_stack-Lifts 2 0 s _ a4) (keeps loops handler ph) in
        follow 0 loops _ s _ h
          (pop_stack-Lifts 2 0 s _ (emit_extended_byte-Lifts 2 s _ a5 eop_continue))
          (keeps loops next pn)
    keeps loops (stmt_break exit next) (pe, pn) s h =
        follow 0 loops _ s _ h
          (generate_break-Lifts exit s (subst (λ l. has_loop exit l ≡ true) (sym h) pe))
          (keeps loops next pn)
    keeps loops (stmt_continue exit next) (pe, pn) s h =
        follow 0 loops _ s _ h
          (generate_continue-Lifts exit s (subst (λ l. has_loop exit l ≡ true) (sym h) pe))
          (keeps loops next pn)

    arms_keep :
        (loops : List Names) (arms : CondArm)
        → AreArms loops arms
        → (otherwise : State → State) → Keeps loops otherwise
        → (o : Opcode) (end : Option ℕ) → Keeps loops (generate_arms f arms otherwise o end)
    arms_keep loops no_arms p otherwise k o end s h = define_label-Lifts 0 s _ (k s h) end
    arms_keep loops (cond_arm c body arms) (pc, pb, pa) otherwise k o end s h =
        let a1 = add_label-Lifts 1 s _ (emit_byte-Lifts 1 s _ (expr c s pc) o) in
        let a2 = follow 0 loops _ s _ h (pop_stack-Lifts 1 0 s _ a1) (keeps loops body pb) in
        let a3 = add_linked_label-Lifts 0 s _ (emit_byte-Lifts 0 s _ a2 op_jump) end in
        follow 0 loops _ s _ h (define_label-Lifts 0 s _ a3 _)
          (arms_keep loops arms pa otherwise k op_eif _)

    excepts_keep :
        (loops : List Names) (arms : ExceptArm)
        → AreExcepts loops arms
        → (labels : List ℕ) (end : Option ℕ) → Keeps loops (generate_excepts f arms labels end)
    excepts_keep loops no_excepts p labels end s h = define_label-Lifts 0 s s (lifts_none s) end
    excepts_keep loops (except_arm id codes body no_excepts) (pc, pb, pa) [] end s h =
        define_label-Lifts 0 s s (lifts_none s) end
    excepts_keep loops (except_arm id codes body no_excepts) (pc, pb, pa) (label ∷ labels) end s h =
        let a1 = push_stack-Lifts 1 0 s _ (define_label-Lifts 0 s s (lifts_none s) (some label)) in
        let a2 = emit_byte-Lifts 1 s _ (put_exception-Lifts f id 1 s _ a1) op_pop in
        define_label-Lifts 0 s _
          (follow 0 loops _ s _ h (pop_stack-Lifts 1 0 s _ a2) (keeps loops body pb)) end
    excepts_keep loops (except_arm id codes body (except_arm i c b arms)) (pc, pb, pa) [] end s h =
        define_label-Lifts 0 s s (lifts_none s) end
    excepts_keep loops (except_arm id codes body (except_arm i c b arms)) (pc, pb, pa)
          (label ∷ labels) end s h =
        let a1 = push_stack-Lifts 1 0 s _ (define_label-Lifts 0 s s (lifts_none s) (some label)) in
        let a2 = emit_byte-Lifts 1 s _ (put_exception-Lifts f id 1 s _ a1) op_pop in
        let a3 = follow 0 loops _ s _ h (pop_stack-Lifts 1 0 s _ a2) (keeps loops body pb) in
        let a4 = add_linked_label-Lifts 0 s _ (emit_byte-Lifts 0 s _ a3 op_jump) end in
        follow 0 loops _ s _ h a4 (excepts_keep loops (except_arm i c b arms) pa labels _)

  -- The code of a statement leaves the level of the stack, the saved stack and the names of the loops
  -- as they were, and makes no panic, where each `break` and `continue` stands in its loop.
  pub generate_stmt-Lifts :
      (stmt : Stmt) (s : State)
      → IsProgram (map names_of s.loops) stmt
      → Lifts 0 s (generate_stmt f stmt s)
  generate_stmt-Lifts stmt s p = keeps (map names_of s.loops) stmt p s refl

  -- The code generator gives the code of every program whose `^` and `$` stand in an index and whose
  -- `break` and `continue` stand in their loops: none of its panics can happen, among them those
  -- for a stack that is not entirely popped at the end of a vector.
  pub generate_code-answers :
      (stmt : Stmt) → IsProgram [] stmt → (p : Program) × (generate_code f stmt ≡ some p)
  unfolding generate_code
  generate_code-answers stmt p =
      let e : (stmt_to_code f stmt init_gstate).panicked ≡ false =
        unfold stmt_to_code init_state init_gstate in
        finish_code-alive init_gstate _ (keeps [] stmt p (init_state init_gstate) refl) in
      (program_of (stmt_to_code f stmt init_gstate), rw (e, generate_code) refl)
