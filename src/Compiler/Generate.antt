-- ===== src/Compiler/Generate.antt =====
-- code_gen.cc: `generate_expr` and what it calls.
pub mod Statements
use stunt.Compiler.Pieces.{
  binary_opcode, extended_opcode, generate_var, generate_end, push_id, scatter_refs, emit_scatter,
  assign, short_circuit,
}
use stunt.Prelude.{ℕ, suc, Bool, true, false, Option, none, some, if◌then◌else◌, ◌==◌}
use stunt.Prelude.Int.{pos}
use stunt.Value.{Floats, Var, int}
use stunt.Compiler.Syntax.{
  Expr, expr_var, expr_id, expr_prop, expr_verb, expr_index, expr_range, expr_asgn, expr_scatter,
  expr_call, expr_binary, expr_extended, expr_negate, expr_not, expr_complement, expr_and, expr_or,
  expr_list, expr_cond, expr_catch, expr_map, expr_first, expr_last, OptExpr, absent, present,
  ArgList, no_args, arg_normal, arg_splice, MapList, no_mappings, mapping, Scatter, scat_end,
  scat_required, scat_rest, scat_optional, Lvalue, lvalue_id, lvalue_prop, lvalue_index,
  lvalue_range,
}
use stunt.Compiler.Opcode.{
  eop_first, eop_last, eop_push_label, eop_end_catch, eop_catch, eop_complement, op_push_get_prop,
  op_get_prop, op_call_verb, op_bi_func_call, op_if_ques, op_ref, op_range_ref,
  op_make_singleton_list, op_check_list_for_splice, op_and, op_or, op_unary_minus, op_not, op_put,
  op_g_put, op_make_empty_list, op_list_add_tail, op_list_append, op_push_ref, op_jump, op_pop,
  op_map_create, op_map_insert, optim_num,
}
use stunt.Compiler.State.{State}
use stunt.Compiler.Emit.{
  num_bytes, emit_byte, emit_raw, emit_extended_byte, add_label, define_label, push_stack,
  pop_stack, save_stack_top, restore_stack_top, emit_var_op,
}

module _ (f : Floats) where
  unfoldable mutual
    pub generate_expr : Expr → State → State
    generate_expr (expr_var v) s = generate_var f v s
    generate_expr (expr_id id) s = push_id id s
    generate_expr (expr_and l r) s =
        let s1 = generate_expr l s in
        let s2 = generate_expr r (short_circuit op_and s1) in
        define_label (some (suc (num_bytes s1))) s2
    generate_expr (expr_or l r) s =
        let s1 = generate_expr l s in
        let s2 = generate_expr r (short_circuit op_or s1) in
        define_label (some (suc (num_bytes s1))) s2
    generate_expr (expr_negate e) s = emit_byte op_unary_minus (generate_expr e s)
    generate_expr (expr_not e) s = emit_byte op_not (generate_expr e s)
    generate_expr (expr_complement e) s = emit_extended_byte eop_complement (generate_expr e s)
    generate_expr (expr_binary b l r) s =
        pop_stack 1 (emit_byte (binary_opcode b) (generate_expr r (generate_expr l s)))
    generate_expr (expr_prop l r) s =
        pop_stack 1 (emit_byte op_get_prop (generate_expr r (generate_expr l s)))
    generate_expr (expr_extended b l r) s =
        pop_stack 1 (emit_extended_byte (extended_opcode b) (generate_expr r (generate_expr l s)))
    generate_expr (expr_index l r) s =
        let s1 = generate_expr l s in
        let s2 = restore_stack_top s1.saved_stack (generate_expr r (save_stack_top s1)) in
        pop_stack 1 (emit_byte op_ref s2)
    generate_expr (expr_range base from to) s =
        let s1 = generate_expr base s in
        let s2 = generate_expr to (generate_expr from (save_stack_top s1)) in
        pop_stack 2 (emit_byte op_range_ref (restore_stack_top s1.saved_stack s2))
    generate_expr expr_first s = generate_end eop_first s
    generate_expr expr_last s = generate_end eop_last s
    generate_expr (expr_map mappings) s =
        generate_map_list mappings (push_stack 1 (emit_byte op_map_create s))
    generate_expr (expr_list args) s = generate_arg_list args s
    generate_expr (expr_call func args) s =
        emit_raw func (emit_byte op_bi_func_call (generate_arg_list args s))
    generate_expr (expr_verb obj verb args) s =
        let s1 = generate_arg_list args (generate_expr verb (generate_expr obj s)) in
        pop_stack 2 (emit_byte op_call_verb s1)
    generate_expr (expr_cond condition consequent alternate) s =
        let s1 = generate_expr condition s in
        let s2 = generate_expr consequent (short_circuit op_if_ques s1) in
        let s3 = define_label (some (suc (num_bytes s1))) (short_circuit op_jump s2) in
        define_label (some (suc (num_bytes s2))) (generate_expr alternate s3)
    generate_expr (expr_scatter sc value) s =
        let s1 = emit_scatter sc (generate_expr value s) in
        let s2 = scatter_refs sc s1 in
        let s3 = scatter_defaults sc (num_bytes s1) (add_label s2) in
        define_label (some (num_bytes s2)) s3
    generate_expr (expr_asgn e value) s = assign e (generate_expr value (push_lvalue e false s))
    generate_expr (expr_catch body codes except) s =
        let s1 = emit_extended_byte eop_push_label (generate_codes codes s) in
        let s2 = push_stack 1 (emit_extended_byte eop_catch (push_stack 1 (add_label s1))) in
        let s3 = emit_extended_byte eop_end_catch (generate_expr body s2) in
        let s4 = define_label (some (num_bytes s1)) (pop_stack 3 (add_label s3)) in
        define_label (some (num_bytes s3)) (generate_except except s4)

    pub generate_except : OptExpr → State → State
    generate_except absent s = emit_byte op_ref (emit_byte (optim_num (pos 1)) s)
    generate_except (present e) s = generate_expr e (pop_stack 1 (emit_byte op_pop s))

    pub generate_codes : ArgList → State → State
    generate_codes no_args s = push_stack 1 (emit_byte (optim_num (pos 0)) s)
    generate_codes (arg_normal e args) s =
        more_args args (emit_byte op_make_singleton_list (generate_expr e s))
    generate_codes (arg_splice e args) s =
        more_args args (emit_byte op_check_list_for_splice (generate_expr e s))

    -- `generate_arg_list`: the first argument, then the others.
    pub generate_arg_list : ArgList → State → State
    generate_arg_list no_args s = push_stack 1 (emit_byte op_make_empty_list s)
    generate_arg_list (arg_normal e args) s =
        more_args args (emit_byte op_make_singleton_list (generate_expr e s))
    generate_arg_list (arg_splice e args) s =
        more_args args (emit_byte op_check_list_for_splice (generate_expr e s))

    pub more_args : ArgList → State → State
    more_args no_args s = s
    more_args (arg_normal e args) s =
        more_args args (pop_stack 1 (emit_byte op_list_add_tail (generate_expr e s)))
    more_args (arg_splice e args) s =
        more_args args (pop_stack 1 (emit_byte op_list_append (generate_expr e s)))

    -- The value comes before the key.
    pub generate_map_list : MapList → State → State
    generate_map_list no_mappings s = s
    generate_map_list (mapping key value mappings) s =
        let s1 = emit_byte op_map_insert (generate_expr key (generate_expr value s)) in
        generate_map_list mappings (pop_stack 2 s1)

    -- The code of the defaults, the targets' references starting at the place `at`.
    pub scatter_defaults : Scatter → ℕ → State → State
    scatter_defaults scat_end at s = s
    scatter_defaults (scat_required id sc) at s = scatter_defaults sc (suc (suc at)) s
    scatter_defaults (scat_rest id sc) at s = scatter_defaults sc (suc (suc at)) s
    scatter_defaults (scat_optional id absent sc) at s = scatter_defaults sc (suc (suc at)) s
    scatter_defaults (scat_optional id (present e) sc) at s =
        let s1 = generate_expr e (define_label (some (suc at)) s) in
        let s2 = emit_byte op_pop (emit_var_op op_put op_g_put id s1) in
        scatter_defaults sc (suc (suc at)) (pop_stack 1 s2)

    pub push_lvalue : Lvalue → Bool → State → State
    push_lvalue (lvalue_range base from to) indexed_above s =
        let s1 = push_lvalue base true s in
        let s2 = generate_expr to (generate_expr from (save_stack_top s1)) in
        restore_stack_top s1.saved_stack s2
    push_lvalue (lvalue_index base at) indexed_above s =
        let s1 = push_lvalue base true s in
        let s2 = restore_stack_top s1.saved_stack (generate_expr at (save_stack_top s1)) in
        if indexed_above then push_stack 1 (emit_byte op_push_ref s2) else s2
    push_lvalue (lvalue_id id) indexed_above s = if indexed_above then push_id id s else s
    push_lvalue (lvalue_prop obj name) indexed_above s =
        let s1 = generate_expr name (generate_expr obj s) in
        if indexed_above then push_stack 1 (emit_byte op_push_get_prop s1) else s1
