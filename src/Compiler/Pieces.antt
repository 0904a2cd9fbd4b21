-- ===== src/Compiler/Pieces.antt =====
-- code_gen.cc: the parts of `generate_expr` that emit no expression.
use stunt.Prelude.{ℕ, suc, Bool, true, false, Option, none, some, if◌then◌else◌}
use stunt.Value.{Floats, Var, int}
use stunt.Compiler.Syntax.{
  Binary, expr_plus, expr_minus, expr_times, expr_divide, expr_mod, expr_eq, expr_ne, expr_lt,
  expr_le, expr_gt, expr_ge, expr_in, Extended, expr_exp, expr_bitor, expr_bitand, expr_bitxor,
  expr_bitshl, expr_bitshr, absent, present, Scatter, scat_end, scat_required, scat_rest,
  scat_optional, Lvalue, lvalue_id, lvalue_prop, lvalue_index, lvalue_range,
}
use stunt.Compiler.Opcode.{
  ExtendedOpcode, eop_rangeset, eop_scatter, eop_exp, eop_bitor, eop_bitand, eop_bitxor, eop_bitshl,
  eop_bitshr, Opcode, op_indexset, op_put_prop, op_mult, op_div, op_mod, op_add, op_minus, op_eq,
  op_ne, op_lt, op_le, op_gt, op_ge, op_in, op_put, op_push, op_g_put, op_g_push, op_imm,
  op_put_temp, op_push_temp, op_pop, optim_num, in_optim_num_range,
}
use stunt.Compiler.State.{State}
use stunt.Compiler.Emit.{
  panic, emit_byte, emit_raw, emit_extended_byte, add_literal, add_var_ref, add_label,
  add_pseudo_label, add_stack_ref, push_stack, pop_stack, emit_var_op,
}

abbrev pub binary_opcode : Binary → Opcode
binary_opcode expr_plus = op_add
binary_opcode expr_minus = op_minus
binary_opcode expr_times = op_mult
binary_opcode expr_divide = op_div
binary_opcode expr_mod = op_mod
binary_opcode expr_eq = op_eq
binary_opcode expr_ne = op_ne
binary_opcode expr_lt = op_lt
binary_opcode expr_le = op_le
binary_opcode expr_gt = op_gt
binary_opcode expr_ge = op_ge
binary_opcode expr_in = op_in

abbrev pub extended_opcode : Extended → ExtendedOpcode
extended_opcode expr_exp = eop_exp
extended_opcode expr_bitor = eop_bitor
extended_opcode expr_bitand = eop_bitand
extended_opcode expr_bitxor = eop_bitxor
extended_opcode expr_bitshl = eop_bitshl
extended_opcode expr_bitshr = eop_bitshr

unfoldable pub is_optim_num : Var → Bool
is_optim_num (int n) = in_optim_num_range n
is_optim_num v = false

-- The opcode of a small integer; no other value is given to it.
unfoldable pub optim_num_to_opcode : Var → Opcode
optim_num_to_opcode (int n) = optim_num n
optim_num_to_opcode v = op_imm

unfoldable pub generate_var : Floats → Var → State → State
generate_var f v s = push_stack 1 (
    if is_optim_num v
    then emit_byte (optim_num_to_opcode v) s
    else add_literal f v (emit_byte op_imm s))

-- `^` and `$`: a panic outside an index.
unfoldable pub end_at : ExtendedOpcode → Option ℕ → State → State
end_at o none s = panic s
end_at o (some saved) s = push_stack 1 (add_stack_ref saved (emit_extended_byte o s))

unfoldable pub generate_end : ExtendedOpcode → State → State
generate_end o s = end_at o s.saved_stack s

unfoldable pub push_id : ℕ → State → State
push_id slot s = push_stack 1 (emit_var_op op_push op_g_push slot s)

unfoldable pub scatter_nargs : Scatter → ℕ
scatter_nargs scat_end = 0
scatter_nargs (scat_required id sc) = suc (scatter_nargs sc)
scatter_nargs (scat_rest id sc) = suc (scatter_nargs sc)
scatter_nargs (scat_optional id e sc) = suc (scatter_nargs sc)

unfoldable pub scatter_nreq : Scatter → ℕ
scatter_nreq scat_end = 0
scatter_nreq (scat_required id sc) = suc (scatter_nreq sc)
scatter_nreq (scat_rest id sc) = scatter_nreq sc
scatter_nreq (scat_optional id e sc) = scatter_nreq sc

-- `rest` after the loop: the place of the last rest target, or one more than the targets.
unfoldable pub scatter_rest : ℕ → Option ℕ → Scatter → ℕ
scatter_rest nargs none scat_end = suc nargs
scatter_rest nargs (some rest) scat_end = rest
scatter_rest nargs rest (scat_required id sc) = scatter_rest (suc nargs) rest sc
scatter_rest nargs rest (scat_rest id sc) = scatter_rest (suc nargs) (some (suc nargs)) sc
scatter_rest nargs rest (scat_optional id e sc) = scatter_rest (suc nargs) rest sc

-- The references of the targets, two bytes each: the variable and a label. `sc->label` of a target
-- with a default is thus the byte after its place.
unfoldable pub scatter_refs : Scatter → State → State
scatter_refs scat_end s = s
scatter_refs (scat_required id sc) s = scatter_refs sc (add_pseudo_label 0 (add_var_ref id s))
scatter_refs (scat_rest id sc) s = scatter_refs sc (add_pseudo_label 0 (add_var_ref id s))
scatter_refs (scat_optional id absent sc) s =
    scatter_refs sc (add_pseudo_label 1 (add_var_ref id s))
scatter_refs (scat_optional id (present e) sc) s = scatter_refs sc (add_label (add_var_ref id s))

unfoldable pub emit_scatter : Scatter → State → State
emit_scatter sc s =
    emit_raw (scatter_rest 0 none sc)
      (emit_raw (scatter_nreq sc) (emit_raw (scatter_nargs sc) (emit_extended_byte eop_scatter s)))

-- The stores of the loop over an assigned lvalue, from the outermost index inwards.
unfoldable pub store_lvalue : Lvalue → State → State
store_lvalue (lvalue_id id) s = emit_var_op op_put op_g_put id s
store_lvalue (lvalue_prop obj name) s = pop_stack 2 (emit_byte op_put_prop s)
store_lvalue (lvalue_index base at) s = store_lvalue base (pop_stack 2 (emit_byte op_indexset s))
store_lvalue (lvalue_range base from to) s =
    store_lvalue base (pop_stack 3 (emit_extended_byte eop_rangeset s))

abbrev pub is_indexed : Lvalue → Bool
is_indexed (lvalue_id id) = false
is_indexed (lvalue_prop obj name) = false
is_indexed (lvalue_index base at) = true
is_indexed (lvalue_range base from to) = true

unfoldable pub assign : Lvalue → State → State
assign e s =
    if is_indexed e
    then emit_byte op_push_temp (emit_byte op_pop (store_lvalue e (emit_byte op_put_temp s)))
    else store_lvalue e s

-- After the left operand: a jump over the right one.
unfoldable pub short_circuit : Opcode → State → State
short_circuit o s = pop_stack 1 (add_label (emit_byte o s))
