-- ===== src/Compiler/Examples.antt =====
-- A loop over a list, with a break, an assignment and an index from the end; and its code.
use stunt.Prelude.{ℕ, ◌+◌, ◌-◌, ◌*◌, ◌≡◌, refl, some, none, [], ◌∷◌, ◌++◌, arith, length}
use stunt.Prelude.Int.{pos, ◌+ℤ◌}
use stunt.Value.{int}
use stunt.Value.Equality.{equality}
use stunt.Value.Sample.{whole_floats}
use stunt.Compiler.Opcode.{in_optim_num_range, opcode_byte, extended_byte}
use stunt.Compiler.Syntax.{
  expr_gt, Expr, expr_var, expr_id, expr_index, expr_asgn, expr_binary, expr_list, expr_last,
  present, no_args, arg_normal, lvalue_id, Stmt, stmt_end, stmt_cond, stmt_list, stmt_expr,
  stmt_return, stmt_break, no_arms, cond_arm,
}
use stunt.Compiler.Scoped.{IsScoped, has_loop, IsProgram}
use stunt.Compiler.State.{fixup_stack, State, init_gstate, init_state}
use stunt.Compiler.Emit.{
  panic, num_bytes, emit_cell, emit_byte, emit_raw, emit_extended_byte, add_known_fixup,
  add_linked_fixup, literal_slot, count_literal, add_literal, count_fork, add_fork, count_var_ref,
  add_var_ref, count_label, add_linked_label, add_label, add_pseudo_label, add_known_label,
  capture_label, define_chain, define_label, add_stack_ref, push_stack, pop_stack, save_stack_top,
  restore_stack_top, enter_loop, innermost_bottom, outer_loops, exit_loop, emit_var_op,
}
use stunt.Compiler.Counts.{count_refs}
use stunt.Compiler.Assemble.{
  max, ref_size, Sizes, size_but_labels, label_size, sizes, vector_size, size_of, widened,
  fixup_value, value_bytes, cell_bytes, lay_out, assemble,
}
use stunt.Compiler.Layout.{AreSizes}
use stunt.Compiler.Pieces.{
  is_optim_num, optim_num_to_opcode, generate_var, end_at, generate_end, push_id, scatter_nargs,
  scatter_nreq, scatter_rest, scatter_refs, emit_scatter, store_lvalue, assign, short_circuit,
}
use stunt.Compiler.Generate.{generate_expr}
use stunt.Compiler.Generate.Statements.{
  find_loop, set_bottom, emit_exit, break_from, generate_break, generate_continue, begin_loop,
  end_loop, emit_for_list, emit_while, emit_fork, put_exception, count_excepts, check_stack,
  finish_code, take_gstate, Program, program_of, push_excepts, except_labels, generate_return,
  push_index, generate_stmt, stmt_to_code, generate_code,
}
use stunt.Compiler.Balance.{Lifts}
use stunt.Compiler.Balance.Stmts.{generate_stmt-Lifts, generate_code-answers}
use stunt.Compiler.Vectors.{
  init_state-IsCounted, read_bytes, read_bytes-ref_size, stmt_to_code-length, generate_stmt-place,
}

abbrev number : ℕ → Expr
number n = expr_var (int (pos n))

abbrev body : Stmt
body =
    stmt_cond
      (cond_arm (expr_binary expr_gt (expr_id 33) (number 1)) (stmt_break none stmt_end) no_arms)
      (stmt_expr (expr_asgn (lvalue_id 34) (expr_index (expr_id 33) expr_last)) stmt_end) stmt_end

abbrev sample : Stmt
sample =
    stmt_list 33 none (expr_list (arg_normal (number 1) (arg_normal (number 200) no_args))) body
      (stmt_return (present (expr_id 34)) stmt_end)

sample-IsProgram : IsProgram [] sample
unfolding IsProgram IsScoped has_loop
sample-IsProgram =
    ((tt, (tt, tt)), (((tt, tt), (refl, tt), tt), ((tt, (tt, refl)), tt), tt), (tt, tt))

abbrev start : State
start = init_state init_gstate

generate_code-answers_example : (p : Program) × (generate_code whole_floats sample ≡ some p)
generate_code-answers_example = generate_code-answers whole_floats sample sample-IsProgram

generate_stmt-Lifts_example : Lifts 0 start (generate_stmt whole_floats sample start)
unfolding init_state
generate_stmt-Lifts_example = generate_stmt-Lifts whole_floats sample start sample-IsProgram

-- `$` is a reference to the stack, so that the code has one.
stmt_to_code-length_example :
    length (assemble (stmt_to_code whole_floats sample init_gstate)).vector
    ≡ (assemble (stmt_to_code whole_floats sample init_gstate)).size
      + (ref_size (stmt_to_code whole_floats sample init_gstate).max_stack - 1)
        * count_refs fixup_stack (stmt_to_code whole_floats sample init_gstate).bytes
stmt_to_code-length_example = stmt_to_code-length whole_floats sample init_gstate sample-IsProgram

abbrev wide : Sizes
wide = record { literal = 2; fork = 1; label = 4; var_name = 2; stack = 1 }

wide-AreSizes : AreSizes wide
wide-AreSizes = record {
  literal = omega arith;
  fork = omega arith;
  label = omega arith;
  var_name = omega arith;
  stack = omega arith;
}

generate_stmt-place_example :
    fixup_value wide (capture_label (generate_stmt whole_floats sample start))
    ≡ length (lay_out wide (generate_stmt whole_floats sample start).bytes)
unfolding init_state
generate_stmt-place_example =
    generate_stmt-place whole_floats sample start wide sample-IsProgram
      (init_state-IsCounted init_gstate) wide-AreSizes refl

read_bytes-ref_size_example :
    (read_bytes (ref_size 300) 0 (value_bytes (ref_size 300) 299 ++ (9 ∷ [])) ≡ (299, 9 ∷ []))
    × (read_bytes (ref_size 256) 0 (value_bytes (ref_size 256) 256 ++ (9 ∷ [])) ≡ (0, 9 ∷ []))
read_bytes-ref_size_example = read_bytes-ref_size 300 299 (9 ∷ []) (omega arith) (omega arith)

-- The bytes of the program: `break` jumps to 34, after the loop, whose top is at 7.
sample-vector :
    (assemble (stmt_to_code whole_floats sample init_gstate)).vector
    ≡ 159 ∷ 16 ∷ 133 ∷ 0 ∷ 135 ∷ 133 ∷ 1 ∷ 145 ∷ 17 ∷ 33 ∷ 34 ∷ 99 ∷ 33 ∷ 159 ∷ 27 ∷ 0 ∷ 23 ∷ 145
      ∷ 13 ∷ 0 ∷ 34 ∷ 140 ∷ 32 ∷ 99 ∷ 33 ∷ 145 ∷ 3 ∷ 2 ∷ 14 ∷ 66 ∷ 34 ∷ 144 ∷ 140 ∷ 7 ∷ 99 ∷ 34
      ∷ 141 ∷ 143 ∷ []
unfolding init_gstate init_state in_optim_num_range opcode_byte extended_byte panic num_bytes
    emit_cell emit_byte emit_raw emit_extended_byte add_known_fixup add_linked_fixup literal_slot
    count_literal add_literal count_fork add_fork count_var_ref add_var_ref count_label
    add_linked_label add_label add_pseudo_label add_known_label capture_label define_chain
    define_label add_stack_ref push_stack pop_stack save_stack_top restore_stack_top enter_loop
    innermost_bottom outer_loops exit_loop emit_var_op is_optim_num optim_num_to_opcode generate_var
    end_at generate_end push_id scatter_nargs scatter_nreq scatter_rest scatter_refs emit_scatter
    store_lvalue assign short_circuit generate_expr find_loop set_bottom emit_exit break_from
    generate_break generate_continue begin_loop end_loop emit_for_list emit_while emit_fork
    put_exception count_excepts check_stack finish_code take_gstate program_of push_excepts
    except_labels generate_return push_index stmt_to_code generate_code generate_stmt max ref_size
    size_but_labels label_size sizes vector_size size_of widened fixup_value value_bytes cell_bytes
    lay_out assemble equality ◌+ℤ◌
sample-vector = refl
