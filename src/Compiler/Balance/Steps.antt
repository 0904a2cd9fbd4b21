-- ===== src/Compiler/Balance/Steps.antt =====
-- What the parts of a statement do to the stack of the code.
use stunt.Compiler.Balance.Loops.{Keeps}
use stunt.Prelude.{ℕ, ◌+◌, ◌*◌, ◌≡◌, refl, ◌∙◌, false, List, map, arith}
use mathlib.Core.Option.{Option, none, some}
use stunt.Value
use stunt.Value.{Floats}
use stunt.Compiler.Syntax.{OptExpr, absent, present, ExceptArm, no_excepts, except_arm}
use stunt.Compiler.Scoped.{IsScopedOpt, Names, AreExcepts}
use stunt.Compiler.State.{Bytecodes, GState, State, init_state}
use stunt.Compiler.Opcode.{
  eop_push_label, eop_while_id, eop_for_list_1, eop_for_list_2, op_while, op_fork, op_fork_with_id,
  op_put, op_g_put, op_imm, op_return, op_return0, op_done,
}
use stunt.Compiler.Emit.{emit_cell, emit_byte}
use stunt.Compiler.Generate.Statements.{
  emit_for_list, emit_while, emit_fork, put_exception, count_excepts, check_stack, finish_code,
  take_gstate, push_excepts, generate_return, push_index,
}
use stunt.Compiler.Balance.{
  names_of, Lifts, lifts_none, lifts_then, lifts_as, push_stack-Lifts, pop_stack-Lifts,
  emit_byte-Lifts, add_var_ref-Lifts, add_fork-Lifts, emit_extended_byte-Lifts, add_label-Lifts,
  emit_var_op-Lifts,
}
use stunt.Compiler.Counted.{same-IsCounted}
use stunt.Compiler.Balance.Parts.{add_literal-Lifts, Fits}
use stunt.Compiler.Balance.Exprs.{generate_expr-Lifts, generate_codes-Lifts}

check_stack-alive :
    (cur : ℕ) (saved : Option ℕ) (s : State)
    → cur ≡ 0
    → saved ≡ none
    → (check_stack cur saved s).panicked ≡ s.panicked
unfolding check_stack
check_stack-alive cur none s h k = ground (arith, h)
check_stack-alive cur (some saved) s h k = cc

pub finish_code-alive :
    (g : GState) (s : State) → Lifts 0 (init_state g) s → (finish_code s).panicked ≡ false
unfolding finish_code init_state emit_byte emit_cell
finish_code-alive g s a =
    check_stack-alive _ _ (emit_byte op_done s) (omega (arith, a.level)) a.saved ∙ a.alive

pub closed : (s : State) → Fits false s
closed s h = absurd (ground (arith, h))

pub follow :
    (n : ℕ) (loops : List Names) (g : State → State) (s s1 : State)
    → map names_of s.loops ≡ loops
    → Lifts n s s1
    → Keeps loops g
    → Lifts n s (g s1)
follow n loops g s s1 h a k =
    lifts_as _ n s (g s1) (omega arith) (lifts_then n 0 s s1 (g s1) a (k s1 (a.loops ∙ h)))

module _ (f : Floats) where
  pub generate_return-Lifts :
      (e : OptExpr) (s : State) → IsScopedOpt false e → Lifts 0 s (generate_return f e s)
  unfolding generate_return IsScopedOpt
  generate_return-Lifts absent s h = emit_byte-Lifts 0 s s (lifts_none s) op_return0
  generate_return-Lifts (present e) s h =
      pop_stack-Lifts 1 0 s _
        (emit_byte-Lifts 1 s _ (generate_expr-Lifts f false e s h (closed s)) op_return)

  pub push_index-Lifts : (n : ℕ) (s0 s : State) → Lifts n s0 s → Lifts (1 + n) s0 (push_index f s)
  unfolding push_index
  push_index-Lifts n s0 s a =
      push_stack-Lifts 1 n s0 _
        (add_literal-Lifts f Value.none n s0 _ tt (emit_byte-Lifts n s0 s a op_imm))

  pub emit_for_list-Lifts :
      (id : ℕ) (index : Option ℕ) (n : ℕ) (s0 s : State)
      → Lifts n s0 s
      → Lifts n s0 (emit_for_list id index s)
  unfolding emit_for_list
  emit_for_list-Lifts id none n s0 s a =
      add_var_ref-Lifts n s0 _ (emit_extended_byte-Lifts n s0 s a eop_for_list_1) id
  emit_for_list-Lifts id (some index) n s0 s a =
      add_var_ref-Lifts n s0 _
        (add_var_ref-Lifts n s0 _ (emit_extended_byte-Lifts n s0 s a eop_for_list_2) id) index

  pub emit_while-Lifts :
      (id : Option ℕ) (n : ℕ) (s0 s : State) → Lifts n s0 s → Lifts n s0 (emit_while id s)
  unfolding emit_while
  emit_while-Lifts none n s0 s a = emit_byte-Lifts n s0 s a op_while
  emit_while-Lifts (some id) n s0 s a =
      add_var_ref-Lifts n s0 _ (emit_extended_byte-Lifts n s0 s a eop_while_id) id

  pub emit_fork-Lifts :
      (id : Option ℕ) (c : Bytecodes) (n : ℕ) (s0 s : State)
      → Lifts n s0 s
      → Lifts n s0 (emit_fork id c s)
  unfolding emit_fork
  emit_fork-Lifts none c n s0 s a = add_fork-Lifts n s0 _ (emit_byte-Lifts n s0 s a op_fork) c
  emit_fork-Lifts (some id) c n s0 s a =
      add_var_ref-Lifts n s0 _ (add_fork-Lifts n s0 _ (emit_byte-Lifts n s0 s a op_fork_with_id) c)
        id

  pub take_gstate-Lifts :
      (inner : State) (n : ℕ) (s0 s : State)
      → inner.panicked ≡ false
      → Lifts n s0 s
      → Lifts n s0 (take_gstate inner s)
  unfolding take_gstate
  take_gstate-Lifts inner n s0 s h a = record {
    alive = ground (arith, h) ∙ a.alive;
    level = a.level;
    saved = a.saved;
    loops = a.loops;
    peak = a.peak;
    counts = λ c. same-IsCounted s _ refl refl refl (a.counts c);
  }

  pub put_exception-Lifts :
      (id : Option ℕ) (n : ℕ) (s0 s : State) → Lifts n s0 s → Lifts n s0 (put_exception id s)
  unfolding put_exception
  put_exception-Lifts none n s0 s a = a
  put_exception-Lifts (some id) n s0 s a = emit_var_op-Lifts n s0 s a op_put op_g_put id

  pub push_excepts-Lifts :
      (loops : List Names) (arms : ExceptArm) (n : ℕ) (s0 s : State)
      → AreExcepts loops arms
      → Lifts n s0 s
      → Lifts (2 * count_excepts arms + n) s0 (push_excepts f arms s)
  unfolding push_excepts count_excepts AreExcepts
  push_excepts-Lifts loops no_excepts n s0 s h a = lifts_as _ _ s0 s (omega arith) a
  push_excepts-Lifts loops (except_arm id codes body arms) n s0 s (hc, hb, ha) a =
      let a1 = lifts_then n 1 s0 s _ a (generate_codes-Lifts f codes s hc) in
      let a2 =
        add_label-Lifts (1 + n) s0 _ (emit_extended_byte-Lifts (1 + n) s0 _ a1 eop_push_label) in
      let a3 = push_stack-Lifts 1 (1 + n) s0 _ a2 in
      lifts_as _ _ s0 _ (omega arith) (push_excepts-Lifts loops arms (1 + (1 + n)) s0 _ ha a3)
