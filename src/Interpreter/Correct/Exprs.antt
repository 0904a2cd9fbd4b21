-- ===== src/Interpreter/Correct/Exprs.antt =====
-- The code of each expression that is modelled computes what the expression means.
use stunt.Interpreter.Correct.Operands.{
  binary_opcode_not_pop, exec-binary_opcode, and-Jumps, or-Jumps, exec-op_not, exec-op_unary_minus,
  rebase, fresh, short_circuit-bytes, short_circuit-gstate, define_label-gstate,
}
use stunt.Prelude.{
  ℕ, suc, ◌+◌, ◌≡◌, refl, ap, subst, ◌∙◌, Bool, false, not, [], ◌∷◌, ◌++◌, arith, length,
  length-append,
}
use mathlib.Core.List.{append_assoc}
use mathlib.Core.Option.{Option, some}
use stunt.Value.{Var, Floats, is_true}
use stunt.Compiler.Syntax.{
  Expr, expr_var, expr_id, expr_asgn, expr_binary, expr_negate, expr_not, expr_and, expr_or,
  expr_cond, lvalue_id,
}
use stunt.Compiler.Opcode.{Opcode, op_if_ques, op_and, op_or, op_unary_minus, op_not, op_jump}
use stunt.Compiler.State.{Cell, op, ref, GState, State}
use stunt.Compiler.Emit.{num_bytes, emit_cell, emit_byte, resolve, define_label, pop_stack}
use stunt.Compiler.Places.{define_label-bytes}
use stunt.Compiler.Pieces.{binary_opcode, store_lvalue, assign, short_circuit}
use stunt.Compiler.Generate.{generate_expr}
use stunt.Interpreter.Operators.{minus_op, not_op}
use stunt.Interpreter.Machine.{Frame, is_pop}
use stunt.Interpreter.Eval.{value, answer, combine, eval, IsSimple}
use stunt.Interpreter.Correct.Runs.{machine}
use stunt.Interpreter.Correct.Answers.{run_binary-after}
use stunt.Interpreter.Correct.Compiled.{Meaning, Compiled, unary, operator}
use stunt.Interpreter.Correct.Branches.{Jumps, stays, short, short_circuits}
use stunt.Interpreter.Correct.Choice.{chooses}
use stunt.Interpreter.Correct.Stores.{store-Compiled}
use stunt.Interpreter.Correct.Leaves.{generate_var-Compiled, push_id-Compiled}

module _ (f : Floats) where
  abbrev means : Expr → Meaning
  means e fr env = eval fr e env

  abbrev Good : Expr → Type 0
  Good e =
      (s : State)
      → Compiled (means e) s.bytes s.gstate.literals (generate_expr f e s).bytes
          (generate_expr f e s).gstate.literals

  -- The right operand, after the jump over it.
  after_jump :
      (o : Opcode) (e : Expr) (s : State)
      → Good e
      → Compiled
          (means e)
          (s.bytes ++ (op o ∷ ref (fresh o s) ∷ []))
          s.gstate.literals
          (generate_expr f e (short_circuit o s)).bytes
          (generate_expr f e (short_circuit o s)).gstate.literals
  after_jump o e s g = rebase (means e) _ _ _ _ _ (short_circuit-bytes o s) (
      subst
        (λ (x : GState).
          Compiled (means e) (short_circuit o s).bytes x.literals
            (generate_expr f e (short_circuit o s)).bytes
            (generate_expr f e (short_circuit o s)).gstate.literals)
        (short_circuit-gstate o s) (g (short_circuit o s)))

  and_or :
      (o : Opcode) (decides : Frame → Var → Bool) (l r : Expr)
      → ((fr : Frame) → Jumps fr o decides stays)
      → is_pop (some (op o)) ≡ false
      → Good l
      → Good r
      → (s : State)
      → (let s1 = generate_expr f l s in
          let s2 = generate_expr f r (short_circuit o s1) in
          Compiled
            (short (means l) (means r) decides)
            s.bytes
            s.gstate.literals
            (define_label (some (suc (num_bytes s1))) s2).bytes
            s2.gstate.literals)
  unfolding num_bytes
  and_or o decides l r ex np gl gr s =
      let s1 = generate_expr f l s in
      let s2 = generate_expr f r (short_circuit o s1) in
      let c = gl s in
      let d = after_jump o r s1 gr in
      let f0 = fresh o s1 in
      let xs = s1.bytes ++ (op o ∷ []) in
      let b2 : s2.bytes ≡ xs ++ (ref f0 ∷ d.cells) = d.bytes ∙ simp append_assoc refl in
      let n : length xs ≡ suc (length s1.bytes) =
        omega (arith, length-append s1.bytes (op o ∷ [])) in
      let b3 = define_label-bytes s2 (suc (length s1.bytes)) xs d.cells f0 b2 n refl in
      short_circuits (means l) (means r) decides o ex np _ _ _ _ f0
        (resolve (length s2.bytes) s2.num f0) _ _ _ c d (b3 ∙ append_assoc s1.bytes (op o ∷ []) _)
        refl

  -- The alternate, after the label of `else` is defined.
  after_else :
      (e : Expr) (at : Option ℕ) (s : State)
      → Good e
      → Compiled
          (means e)
          (define_label at (short_circuit op_jump s)).bytes
          s.gstate.literals
          (generate_expr f e (define_label at (short_circuit op_jump s))).bytes
          (generate_expr f e (define_label at (short_circuit op_jump s))).gstate.literals
  after_else e at s g =
      let s3 = define_label at (short_circuit op_jump s) in
      subst
        (λ (x : GState).
          Compiled (means e) s3.bytes x.literals (generate_expr f e s3).bytes
            (generate_expr f e s3).gstate.literals)
        (define_label-gstate at (short_circuit op_jump s) ∙ short_circuit-gstate op_jump s) (g s3)

  cond : (c t e : Expr) → Good c → Good t → Good e → Good (expr_cond c t e)
  unfolding num_bytes generate_expr eval define_label
  cond c t e gc gt ge s =
      let s1 = generate_expr f c s in
      let s2 = generate_expr f t (short_circuit op_if_ques s1) in
      let sc = short_circuit op_jump s2 in
      let s3 = define_label (some (suc (length s1.bytes))) sc in
      let s4 = generate_expr f e s3 in
      let d = after_jump op_if_ques t s1 gt in
      let b = after_else e (some (suc (length s1.bytes))) s2 ge in
      let f0 = fresh op_if_ques s1 in
      let g0 = fresh op_jump s2 in
      let xs = s1.bytes ++ (op op_if_ques ∷ []) in
      let n : length xs ≡ suc (length s1.bytes) =
        omega (arith, length-append s1.bytes (op op_if_ques ∷ [])) in
      let jump = op op_jump ∷ ref g0 ∷ [] in
      let bc : sc.bytes ≡ xs ++ (ref f0 ∷ (d.cells ++ jump)) =
        short_circuit-bytes op_jump s2 ∙ ap (λ x. x ++ jump) d.bytes ∙ simp append_assoc refl in
      let g1 = resolve (length sc.bytes) sc.num f0 in
      let b3 = define_label-bytes sc (suc (length s1.bytes)) xs (d.cells ++ jump) f0 bc n refl in
      let lc : length sc.bytes ≡ length s2.bytes + 2 = omega (
        arith,
        ap (length {A = Cell}) (short_circuit-bytes op_jump s2),
        length-append s2.bytes jump,
      ) in
      let ys = xs ++ (ref g1 ∷ (d.cells ++ (op op_jump ∷ []))) in
      let b4 : s4.bytes ≡ ys ++ (ref g0 ∷ b.cells) =
        b.bytes ∙ ap (λ x. x ++ b.cells) b3 ∙ simp append_assoc refl in
      let ld : length s2.bytes ≡ suc (suc (length s1.bytes)) + length d.cells = omega (
        arith,
        ap (length {A = Cell}) d.bytes,
        length-append (s1.bytes ++ (op op_if_ques ∷ ref f0 ∷ [])) d.cells,
        length-append s1.bytes (op op_if_ques ∷ ref f0 ∷ []),
      ) in
      let ly : length ys ≡ suc (length s2.bytes) = omega (
        arith,
        length-append xs (ref g1 ∷ (d.cells ++ (op op_jump ∷ []))),
        n,
        ld,
        length-append d.cells (op op_jump ∷ []),
      ) in
      let l3 : length s3.bytes ≡ length s2.bytes + 2 = omega (
        arith,
        ap (length {A = Cell}) b3,
        ap (length {A = Cell}) bc,
        lc,
        length-append xs (ref f0 ∷ (d.cells ++ jump)),
        length-append xs (ref g1 ∷ (d.cells ++ jump)),
      ) in
      let b5 = define_label-bytes s4 (suc (length s2.bytes)) ys b.cells g0 b4 ly refl in
      chooses (means c) (means t) (means e) f0 g1 g0 (resolve (length s4.bytes) s4.num g0) _ _ _ _ _
        _ _ _ _ _ (gc s) d l3 b (b5 ∙ simp append_assoc refl) lc refl

  -- For an expression that is made of literal integers, object numbers, strings and errors, of
  -- variables, assignments to variables, `&&`, `||`, `!`, the unary minus, the conditional, and the
  -- operators `+ - * / % == != < <= > >=`, and of nothing else: its code stands, with its literals, at
  -- the end of what was there, and in front of any code, on any stack and with any variables it does
  -- what the expression means: it pushes the value, with the variables as the assignments leave them,
  -- or it raises the error, ends the task, or panics. Where `OP_POP` comes next, the value may be
  -- dropped with it.
  pub generate_expr-Compiled :
      (e : Expr) (s : State)
      → IsSimple e
      → Compiled
          (λ fr env. eval fr e env)
          s.bytes
          s.gstate.literals
          (generate_expr f e s).bytes
          (generate_expr f e s).gstate.literals
  unfolding generate_expr IsSimple eval assign store_lvalue define_label emit_byte emit_cell
      pop_stack
  generate_expr-Compiled (expr_var v) s h = generate_var-Compiled f v s h
  generate_expr-Compiled (expr_id id) s h = push_id-Compiled id s
  generate_expr-Compiled (expr_and l r) s (hl, hr) =
      and_or op_and (λ fr v. not (is_true fr.floats v)) l r and-Jumps refl
        (λ s. generate_expr-Compiled l s hl) (λ s. generate_expr-Compiled r s hr) s
  generate_expr-Compiled (expr_or l r) s (hl, hr) =
      and_or op_or (λ fr v. is_true fr.floats v) l r or-Jumps refl
        (λ s. generate_expr-Compiled l s hl) (λ s. generate_expr-Compiled r s hr) s
  generate_expr-Compiled (expr_not e) s h =
      unary (means e) (λ fr v env. value (not_op fr.floats v) env) op_not exec-op_not refl _ _ _ _
        (generate_expr-Compiled e s h)
  generate_expr-Compiled (expr_negate e) s h =
      unary (means e) (λ fr v env. answer fr (minus_op v) env) op_unary_minus exec-op_unary_minus
        refl _ _ _ _ (generate_expr-Compiled e s h)
  generate_expr-Compiled (expr_binary o l r) s (ho, hl, hr) =
      operator (means l) (means r) (λ fr v w env. combine fr o v w env) (binary_opcode o)
        (λ fr pc p rts env temp v w.
          exec-binary_opcode o fr pc p rts env temp v w
          ∙ run_binary-after fr pc rts (machine p (w ∷ v ∷ rts) env temp) o v w)
        (binary_opcode_not_pop o) _ _ _ _ _ _ (generate_expr-Compiled l s hl)
        (generate_expr-Compiled r (generate_expr f l s) hr)
  generate_expr-Compiled (expr_cond c t e) s (hc, ht, he) =
      cond c t e (λ s. generate_expr-Compiled c s hc) (λ s. generate_expr-Compiled t s ht)
        (λ s. generate_expr-Compiled e s he) s
  generate_expr-Compiled (expr_asgn (lvalue_id id) e) s h =
      store-Compiled (means e) id _ _ (generate_expr f e s) (generate_expr-Compiled e s h)
  generate_expr-Compiled e s h = elim h [ ]
