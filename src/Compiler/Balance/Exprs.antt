-- ===== src/Compiler/Balance/Exprs.antt =====
-- The code of an expression pushes one value.
use stunt.Prelude.{ℕ, suc, Bool, true, false, arith}
use stunt.Value.{Floats}
use stunt.Compiler.Syntax.{
  Expr, expr_var, expr_id, expr_prop, expr_verb, expr_index, expr_range, expr_asgn, expr_scatter,
  expr_call, expr_binary, expr_extended, expr_negate, expr_not, expr_complement, expr_and, expr_or,
  expr_list, expr_cond, expr_catch, expr_map, expr_first, expr_last, OptExpr, absent, present,
  ArgList, no_args, arg_normal, arg_splice, MapList, no_mappings, mapping, Scatter, scat_end,
  scat_required, scat_rest, scat_optional, Lvalue, lvalue_id, lvalue_prop, lvalue_index,
  lvalue_range,
}
use stunt.Compiler.Scoped.{
  IsBase, IsScoped, IsScopedOpt, AreScoped, IsScopedMap, IsScatter, IsPlace,
}
use stunt.Compiler.State.{State}
use stunt.Compiler.Opcode.{
  eop_first, eop_last, eop_push_label, eop_catch, Opcode, op_call_verb, op_if_ques, op_ref,
  op_range_ref, op_and, op_or, op_put, op_g_put, op_make_empty_list, op_list_add_tail,
  op_list_append, op_push_ref, op_jump, op_pop, op_map_create, op_map_insert,
}
use stunt.Compiler.Pieces.{generate_end, short_circuit}
use stunt.Compiler.Generate.{
  generate_expr, generate_except, generate_codes, generate_arg_list, more_args, generate_map_list,
  scatter_defaults, push_lvalue,
}
use stunt.Compiler.Balance.{
  Lifts, lifts_none, lifts_then, lifts_as, push_stack-Lifts, pop_stack-Lifts, emit_byte-Lifts,
  emit_raw-Lifts, define_label-Lifts, emit_extended_byte-Lifts, add_label-Lifts, emit_var_op-Lifts,
}
use stunt.Compiler.Balance.Parts.{
  generate_var-Lifts, end_at-Lifts, push_id-Lifts, scatter_refs-Lifts, emit_scatter-Lifts,
  short_circuit-Lifts, pushed, assign-Lifts, Fits, Effect, extend, both, restored,
}

module _ (f : Floats) where
  and_or :
      (b : Bool) (o : Opcode) (l r : Expr)
      → Effect b 1 (generate_expr f l)
      → Effect b 1 (generate_expr f r)
      → Effect b 1 (λ s. generate_expr f r (short_circuit o (generate_expr f l s)))
  and_or b o l r a c s k =
      extend b 0 1 (generate_expr f r) s _ k (short_circuit-Lifts o 0 s _ (a s k)) c

  mutual
    unfolding generate_expr IsScoped generate_end pushed

    raises : (b : Bool) (e : Expr) → IsScoped b e → Effect b 1 (generate_expr f e)
    raises b (expr_var v) h s k = generate_var-Lifts f v s h
    raises b (expr_id id) h s k = push_id-Lifts id s
    raises b (expr_and l r) (hl, hr) s k =
        define_label-Lifts 1 s _ (and_or b op_and l r (raises b l hl) (raises b r hr) s k) _
    raises b (expr_or l r) (hl, hr) s k =
        define_label-Lifts 1 s _ (and_or b op_or l r (raises b l hl) (raises b r hr) s k) _
    raises b (expr_negate e) h s k = emit_byte-Lifts 1 s _ (raises b e h s k) _
    raises b (expr_not e) h s k = emit_byte-Lifts 1 s _ (raises b e h s k) _
    raises b (expr_complement e) h s k = emit_extended_byte-Lifts 1 s _ (raises b e h s k) _
    raises b (expr_binary o l r) (hl, hr) s k =
        pop_stack-Lifts 1 1 s _
          (emit_byte-Lifts 2 s _ (both b 1 1 _ _ (raises b l hl) (raises b r hr) s k) _)
    raises b (expr_prop l r) (hl, hr) s k =
        pop_stack-Lifts 1 1 s _
          (emit_byte-Lifts 2 s _ (both b 1 1 _ _ (raises b l hl) (raises b r hr) s k) _)
    raises b (expr_extended o l r) (hl, hr) s k =
        pop_stack-Lifts 1 1 s _
          (emit_extended_byte-Lifts 2 s _ (both b 1 1 _ _ (raises b l hl) (raises b r hr) s k) _)
    raises b (expr_index l r) (hl, hr) s k = pop_stack-Lifts 1 1 s _ (
        emit_byte-Lifts 2 s _
          (lifts_then 1 1 s _ _ (raises b l hl s k) (restored 1 _ _ (raises true r hr))) op_ref)
    raises b (expr_range base from to) (hb, hf, ht) s k = pop_stack-Lifts 2 1 s _ (
        emit_byte-Lifts 3 s _
          (lifts_then 1 2 s _ _ (raises b base hb s k)
            (restored 2 _ _ (both true 1 1 _ _ (raises true from hf) (raises true to ht))))
          op_range_ref)
    raises b expr_first h s k = end_at-Lifts eop_first s.saved_stack s (k h)
    raises b expr_last h s k = end_at-Lifts eop_last s.saved_stack s (k h)
    raises b (expr_map mappings) h s k =
        mappings_keep b mappings h 0 s _ k
          (push_stack-Lifts 1 0 s _ (emit_byte-Lifts 0 s s (lifts_none s) op_map_create))
    raises b (expr_list args) h s k = args_raise b args h s k
    raises b (expr_call func args) h s k =
        emit_raw-Lifts 1 s _ (emit_byte-Lifts 1 s _ (args_raise b args h s k) _) func
    raises b (expr_verb obj verb args) (ho, hv, ha) s k = pop_stack-Lifts 2 1 s _ (
        emit_byte-Lifts 3 s _
          (both b 2 1 _ _ (both b 1 1 _ _ (raises b obj ho) (raises b verb hv))
            (args_raise b args ha) s k)
          op_call_verb)
    raises b (expr_cond c t e) (hc, ht, he) s k =
        let a1 = short_circuit-Lifts op_if_ques 0 s _ (raises b c hc s k) in
        let a2 = short_circuit-Lifts op_jump 0 s _ (extend b 0 1 _ s _ k a1 (raises b t ht)) in
        let a3 = extend b 0 1 _ s _ k (define_label-Lifts 0 s _ a2 _) (raises b e he) in
        define_label-Lifts 1 s _ a3 _
    raises b (expr_scatter sc value) (hs, hv) s k =
        let a1 = emit_scatter-Lifts sc 1 s _ (raises b value hv s k) in
        let a2 = add_label-Lifts 1 s _ (scatter_refs-Lifts sc 1 s _ a1) in
        define_label-Lifts 1 s _ (extend b 1 0 _ s _ k a2 (defaults_keep b sc hs _)) _
    raises b (expr_asgn e value) (he, hv) s k =
        assign-Lifts b e s _ he
          (extend b (pushed e) 1 _ s _ k (places b e he s k) (raises b value hv))
    raises b (expr_catch body codes except) (hb, hc, he) s k =
        let a1 = emit_extended_byte-Lifts 1 s _ (codes_raise b codes hc s k) eop_push_label in
        let a2 = push_stack-Lifts 1 1 s _ (add_label-Lifts 1 s _ a1) in
        let a3 = push_stack-Lifts 1 2 s _ (emit_extended_byte-Lifts 2 s _ a2 eop_catch) in
        let a4 = emit_extended_byte-Lifts 4 s _ (extend b 3 1 _ s _ k a3 (raises b body hb)) _ in
        let a5 = pop_stack-Lifts 3 1 s _ (add_label-Lifts 4 s _ a4) in
        define_label-Lifts 1 s _ (except_keeps b except he s _ k (define_label-Lifts 1 s _ a5 _)) _

    except_keeps :
        (b : Bool) (e : OptExpr)
        → IsScopedOpt b e
        → (s0 s : State) → Fits b s0
        → Lifts 1 s0 s
        → Lifts 1 s0 (generate_except f e s)
    except_keeps b absent h s0 s k a = emit_byte-Lifts 1 s0 _ (emit_byte-Lifts 1 s0 s a _) op_ref
    except_keeps b (present e) h s0 s k a =
        extend b 0 1 _ s0 _ k (pop_stack-Lifts 1 0 s0 _ (emit_byte-Lifts 1 s0 s a op_pop))
          (raises b e h)

    codes_raise :
        (b : Bool) (args : ArgList) → AreScoped b args → Effect b 1 (generate_codes f args)
    codes_raise b no_args h s k = push_stack-Lifts 1 0 s _ (emit_byte-Lifts 0 s s (lifts_none s) _)
    codes_raise b (arg_normal e args) (he, ha) s k =
        more_keep b args ha s _ k (emit_byte-Lifts 1 s _ (raises b e he s k) _)
    codes_raise b (arg_splice e args) (he, ha) s k =
        more_keep b args ha s _ k (emit_byte-Lifts 1 s _ (raises b e he s k) _)

    args_raise :
        (b : Bool) (args : ArgList) → AreScoped b args → Effect b 1 (generate_arg_list f args)
    args_raise b no_args h s k =
        push_stack-Lifts 1 0 s _ (emit_byte-Lifts 0 s s (lifts_none s) op_make_empty_list)
    args_raise b (arg_normal e args) (he, ha) s k =
        more_keep b args ha s _ k (emit_byte-Lifts 1 s _ (raises b e he s k) _)
    args_raise b (arg_splice e args) (he, ha) s k =
        more_keep b args ha s _ k (emit_byte-Lifts 1 s _ (raises b e he s k) _)

    more_keep :
        (b : Bool) (args : ArgList)
        → AreScoped b args
        → (s0 s : State) → Fits b s0
        → Lifts 1 s0 s
        → Lifts 1 s0 (more_args f args s)
    more_keep b no_args h s0 s k a = a
    more_keep b (arg_normal e args) (he, ha) s0 s k a = more_keep b args ha s0 _ k (
        pop_stack-Lifts 1 1 s0 _
          (emit_byte-Lifts 2 s0 _ (extend b 1 1 _ s0 s k a (raises b e he)) op_list_add_tail))
    more_keep b (arg_splice e args) (he, ha) s0 s k a = more_keep b args ha s0 _ k (
        pop_stack-Lifts 1 1 s0 _
          (emit_byte-Lifts 2 s0 _ (extend b 1 1 _ s0 s k a (raises b e he)) op_list_append))

    mappings_keep :
        (b : Bool) (mappings : MapList)
        → IsScopedMap b mappings
        → (n : ℕ) (s0 s : State) → Fits b s0
        → Lifts 1 s0 s
        → Lifts 1 s0 (generate_map_list f mappings s)
    mappings_keep b no_mappings h n s0 s k a = a
    mappings_keep b (mapping key value mappings) (hk, hv, hm) n s0 s k a =
        mappings_keep b mappings hm n s0 _ k (
          pop_stack-Lifts 2 1 s0 _ (
            emit_byte-Lifts 3 s0 _
              (extend b 1 2 _ s0 s k a (both b 1 1 _ _ (raises b value hv) (raises b key hk)))
              op_map_insert))

    defaults_keep :
        (b : Bool) (sc : Scatter)
        → IsScatter b sc
        → (at : ℕ) → Effect b 0 (scatter_defaults f sc at)
    defaults_keep b scat_end h at s k = lifts_none s
    defaults_keep b (scat_required id sc) h at s k = defaults_keep b sc h _ s k
    defaults_keep b (scat_rest id sc) h at s k = defaults_keep b sc h _ s k
    defaults_keep b (scat_optional id absent sc) (he, h) at s k = defaults_keep b sc h _ s k
    defaults_keep b (scat_optional id (present e) sc) (he, h) at s k =
        let a1 = extend b 0 1 _ s _ k (define_label-Lifts 0 s s (lifts_none s) _) (raises b e he) in
        let a2 = emit_byte-Lifts 1 s _ (emit_var_op-Lifts 1 s _ a1 op_put op_g_put id) op_pop in
        extend b 0 0 _ s _ k (pop_stack-Lifts 1 0 s _ a2) (defaults_keep b sc h _)

    places : (b : Bool) (e : Lvalue) → IsPlace b e → Effect b (pushed e) (push_lvalue f e false)
    places b (lvalue_id id) h s k = lifts_none s
    places b (lvalue_prop obj name) (ho, hn) s k =
        both b 1 1 _ _ (raises b obj ho) (raises b name hn) s k
    places b (lvalue_index base at) (hb, hp, ha) s k =
        lifts_as _ _ s _ (omega arith)
          (lifts_then _ 1 s _ _ (bases b base hb hp s k) (restored 1 _ _ (raises true at ha)))
    places b (lvalue_range base from to) (hb, hp, hf, ht) s k = lifts_as _ _ s _ (omega arith) (
        lifts_then _ 2 s _ _ (bases b base hb hp s k)
          (restored 2 _ _ (both true 1 1 _ _ (raises true from hf) (raises true to ht))))

    bases :
        (b : Bool) (e : Lvalue)
        → IsBase e
        → IsPlace b e
        → Effect b (suc (pushed e)) (push_lvalue f e true)
    bases b (lvalue_id id) i h s k = push_id-Lifts id s
    bases b (lvalue_prop obj name) i (ho, hn) s k =
        push_stack-Lifts 1 2 s _
          (emit_byte-Lifts 2 s _ (both b 1 1 _ _ (raises b obj ho) (raises b name hn) s k) _)
    bases b (lvalue_index base at) i (hb, hp, ha) s k = lifts_as _ _ s _ (omega arith) (
        push_stack-Lifts 1 _ s _ (
          emit_byte-Lifts _ s _
            (lifts_then _ 1 s _ _ (bases b base hb hp s k) (restored 1 _ _ (raises true at ha)))
            op_push_ref))
    bases b (lvalue_range base from to) i h s k = elim i [ ]

  -- The code of an expression pushes one value more, keeps the saved stack and the loops, and makes
  -- no panic, when `^` and `$` stand in an index, or anywhere where a stack is saved.
  pub generate_expr-Lifts :
      (b : Bool) (e : Expr) (s : State) → IsScoped b e → Fits b s → Lifts 1 s (generate_expr f e s)
  generate_expr-Lifts b e s h k = raises b e h s k

  pub generate_codes-Lifts :
      (args : ArgList) (s : State) → AreScoped false args → Lifts 1 s (generate_codes f args s)
  generate_codes-Lifts args s h = codes_raise false args h s (λ e. absurd (ground (arith, e)))
