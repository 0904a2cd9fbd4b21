-- ===== src/Compiler/Generate/Statements.antt =====
-- code_gen.cc: `generate_stmt`, `stmt_to_code` and `generate_code`.
use stunt.Prelude.{ℕ, suc, ◌+◌, ◌-◌, ◌*◌, Bool, false, ◌||◌, ◌==◌, List, [], ◌∷◌, if◌then◌else◌}
use mathlib.Core.Option.{Option, none, some}
use stunt.Value
use stunt.Value.{Floats, Var}
use stunt.Compiler.Syntax.{
  OptExpr, absent, present, Stmt, stmt_end, stmt_cond, stmt_list, stmt_range, stmt_while, stmt_fork,
  stmt_expr, stmt_return, stmt_try_except, stmt_try_finally, stmt_break, stmt_continue, CondArm,
  no_arms, cond_arm, ExceptArm, no_excepts, except_arm,
}
use stunt.Compiler.Opcode.{
  eop_push_label, eop_end_except, eop_end_finally, eop_continue, eop_try_except, eop_try_finally,
  eop_while_id, eop_exit, eop_exit_id, eop_for_list_1, eop_for_list_2, Opcode, op_if, op_while,
  op_eif, op_fork, op_fork_with_id, op_for_range, op_put, op_g_put, op_imm, op_jump, op_return,
  op_return0, op_done, op_pop,
}
use stunt.Compiler.State.{Fixup, Bytecodes, GState, Loop, State, init_gstate, init_state}
use stunt.Compiler.Emit.{
  panic, num_bytes, emit_byte, emit_raw, emit_extended_byte, add_literal, add_fork, add_var_ref,
  add_linked_label, add_label, add_known_label, capture_label, define_label, add_stack_ref,
  push_stack, pop_stack, enter_loop, innermost_bottom, exit_loop, emit_var_op,
}
use stunt.Compiler.Assemble.{assemble}
use stunt.Compiler.Generate.{generate_expr, generate_codes}

abbrev pub is_id : ℕ → Option ℕ → Bool
is_id id none = false
is_id id (some i) = id == i

-- The loop of a `break` or a `continue`: the innermost, or the innermost with the name.
unfoldable pub find_loop : Option ℕ → List Loop → Option Loop
find_loop exit [] = none
find_loop none (loop ∷ loops) = some loop
find_loop (some id) (loop ∷ loops) =
    let outer = find_loop (some id) loops in
    if is_id id loop.id || is_id id loop.index then some loop else outer

-- `loop->bottom_label = label` for the loop that `find_loop` finds.
unfoldable pub set_bottom : Option ℕ → ℕ → List Loop → List Loop
set_bottom exit label [] = []
set_bottom none label (loop ∷ loops) = record loop { bottom_label = some label } ∷ loops
set_bottom (some id) label (loop ∷ loops) =
    let outer = set_bottom (some id) label loops in
    if is_id id loop.id || is_id id loop.index
    then record loop { bottom_label = some label } ∷ loops
    else loop ∷ outer

unfoldable pub emit_exit : Option ℕ → State → State
emit_exit none s = emit_extended_byte eop_exit s
emit_exit (some id) s = add_var_ref id (emit_extended_byte eop_exit_id s)

unfoldable pub break_from : Option ℕ → Loop → State → State
break_from exit loop s =
    let s1 = add_stack_ref loop.bottom_stack s in
    let s2 = add_linked_label loop.bottom_label s1 in
    record s2 { loops = set_bottom exit (num_bytes s1) s2.loops }

unfoldable pub generate_break : Option ℕ → State → State
generate_break exit s =
    let s1 = emit_exit exit s in
    elim (find_loop exit s1.loops) [ none ↦ panic s1 | some loop ↦ break_from exit loop s1 ]

unfoldable pub generate_continue : Option ℕ → State → State
generate_continue exit s =
    let s1 = emit_exit exit s in
    elim (find_loop exit s1.loops) [
      | none ↦ panic s1
      | some loop ↦ add_known_label loop.top_label (add_stack_ref loop.top_stack s1)
    ]

-- After the condition of a loop, its opcode and its variables.
abbrev pub a_loop : Option ℕ → Option ℕ → Fixup → ℕ → State → Loop
a_loop id index top pops s = record {
  id = id;
  index = index;
  top_label = top;
  top_stack = s.cur_stack;
  bottom_label = some (num_bytes s);
  bottom_stack = s.cur_stack - pops;
}

unfoldable pub begin_loop : Option ℕ → Option ℕ → Fixup → ℕ → State → State
begin_loop id index top pops s = enter_loop (a_loop id index top pops s) (add_label s)

-- After the body: the jump to the top, and the bottom label.
unfoldable pub end_loop : Fixup → State → State
end_loop top s =
    define_label (innermost_bottom s) (add_known_label top (emit_byte op_jump (exit_loop s)))

unfoldable pub emit_for_list : ℕ → Option ℕ → State → State
emit_for_list id none s = add_var_ref id (emit_extended_byte eop_for_list_1 s)
emit_for_list id (some index) s =
    add_var_ref index (add_var_ref id (emit_extended_byte eop_for_list_2 s))

unfoldable pub emit_while : Option ℕ → State → State
emit_while none s = emit_byte op_while s
emit_while (some id) s = add_var_ref id (emit_extended_byte eop_while_id s)

unfoldable pub emit_fork : Option ℕ → Bytecodes → State → State
emit_fork none code s = add_fork code (emit_byte op_fork s)
emit_fork (some id) code s = add_var_ref id (add_fork code (emit_byte op_fork_with_id s))

unfoldable pub put_exception : Option ℕ → State → State
put_exception none s = s
put_exception (some id) s = emit_var_op op_put op_g_put id s

unfoldable pub count_excepts : ExceptArm → ℕ
count_excepts no_excepts = 0
count_excepts (except_arm id codes body arms) = suc (count_excepts arms)

unfoldable pub check_stack : ℕ → Option ℕ → State → State
check_stack cur_stack none s = if cur_stack == 0 then s else panic s
check_stack cur_stack (some saved) s = panic s

-- After `generate_stmt`: `OP_DONE`, and the checks that the stack and the saved stack are as at
-- the start.
unfoldable pub finish_code : State → State
finish_code s = check_stack s.cur_stack s.saved_stack (emit_byte op_done s)

-- The state of the enclosing code gets the tables back, and a panic.
unfoldable pub take_gstate : State → State → State
take_gstate inner s = record s { gstate = inner.gstate; panicked = s.panicked || inner.panicked }

-- `Program`, as far as `generate_code` fills it.
pub record Program : Type 0 where
  pub main_vector : Bytecodes
  pub literals : List Var
  pub fork_vectors : List Bytecodes

unfoldable pub program_of : State → Program
program_of s = record {
  main_vector = assemble s;
  literals = s.gstate.literals;
  fork_vectors = s.gstate.fork_vectors;
}

module _ (f : Floats) where
  -- The code of the handlers' codes and labels, before `EOP_TRY_EXCEPT`.
  unfoldable pub push_excepts : ExceptArm → State → State
  push_excepts no_excepts s = s
  push_excepts (except_arm id codes body arms) s =
      let s1 = emit_extended_byte eop_push_label (generate_codes f codes s) in
      push_excepts arms (push_stack 1 (add_label s1))

  -- The places of `ex->label` of the arms.
  unfoldable pub except_labels : ExceptArm → State → List ℕ
  except_labels no_excepts s = []
  except_labels (except_arm id codes body arms) s =
      let s1 = emit_extended_byte eop_push_label (generate_codes f codes s) in
      num_bytes s1 ∷ except_labels arms (push_stack 1 (add_label s1))

  unfoldable pub generate_return : OptExpr → State → State
  generate_return absent s = emit_byte op_return0 s
  generate_return (present e) s = pop_stack 1 (emit_byte op_return (generate_expr f e s))

  -- The initial value of a loop over a list, and its place on the stack.
  unfoldable pub push_index : State → State
  push_index s = push_stack 1 (add_literal f Value.none (emit_byte op_imm s))

  unfoldable mutual
    pub generate_stmt : Stmt → State → State
    generate_stmt stmt_end s = s
    generate_stmt (stmt_cond arms otherwise next) s =
        generate_stmt next (generate_arms arms (generate_stmt otherwise) op_if none s)
    generate_stmt (stmt_list id index e body next) s =
        let s1 = push_index (generate_expr f e s) in
        let top = capture_label s1 in
        let s2 = begin_loop (some id) index top 2 (emit_for_list id index s1) in
        generate_stmt next (pop_stack 2 (end_loop top (generate_stmt body s2)))
    generate_stmt (stmt_range id from to body next) s =
        let s1 = generate_expr f to (generate_expr f from s) in
        let top = capture_label s1 in
        let s2 = begin_loop (some id) none top 2 (add_var_ref id (emit_byte op_for_range s1)) in
        generate_stmt next (pop_stack 2 (end_loop top (generate_stmt body s2)))
    generate_stmt (stmt_while id condition body next) s =
        let top = capture_label s in
        let s1 = emit_while id (generate_expr f condition s) in
        let s2 = begin_loop id none top 0 (pop_stack 1 s1) in
        generate_stmt next (end_loop top (generate_stmt body s2))
    generate_stmt (stmt_fork id time body next) s =
        let s1 = generate_expr f time s in
        let inner = finish_code (generate_stmt body (init_state s1.gstate)) in
        generate_stmt next (pop_stack 1 (emit_fork id (assemble inner) (take_gstate inner s1)))
    generate_stmt (stmt_expr e next) s =
        generate_stmt next (pop_stack 1 (emit_byte op_pop (generate_expr f e s)))
    generate_stmt (stmt_return e next) s = generate_stmt next (generate_return e s)
    generate_stmt (stmt_try_except body excepts next) s =
        let arm_count = count_excepts excepts in
        let s1 = emit_extended_byte eop_try_except (push_excepts excepts s) in
        let s2 = generate_stmt body (push_stack 1 (emit_raw arm_count s1)) in
        let s3 = emit_extended_byte eop_end_except s2 in
        let s4 = pop_stack (2 * arm_count + 1) (add_label s3) in
        let labels = except_labels excepts s in
        generate_stmt next (generate_excepts excepts labels (some (num_bytes s3)) s4)
    generate_stmt (stmt_try_finally body handler next) s =
        let s1 = emit_extended_byte eop_try_finally s in
        let s2 = generate_stmt body (push_stack 1 (add_label s1)) in
        let s3 = pop_stack 1 (emit_extended_byte eop_end_finally s2) in
        let s4 = push_stack 2 (define_label (some (num_bytes s1)) s3) in
        let s5 = emit_extended_byte eop_continue (generate_stmt handler s4) in
        generate_stmt next (pop_stack 2 s5)
    generate_stmt (stmt_break exit next) s = generate_stmt next (generate_break exit s)
    generate_stmt (stmt_continue exit next) s = generate_stmt next (generate_continue exit s)

    -- The arms, then `otherwise`, with the chain of the jumps to the end.
    pub generate_arms : CondArm → (State → State) → Opcode → Option ℕ → State → State
    generate_arms no_arms otherwise if_op end s = define_label end (otherwise s)
    generate_arms (cond_arm condition body arms) otherwise if_op end s =
        let s1 = emit_byte if_op (generate_expr f condition s) in
        let s2 = emit_byte op_jump (generate_stmt body (pop_stack 1 (add_label s1))) in
        let s3 = define_label (some (num_bytes s1)) (add_linked_label end s2) in
        generate_arms arms otherwise op_eif (some (num_bytes s2)) s3

    -- The handlers, with the places of their labels and the chain of the jumps to the end.
    pub generate_excepts : ExceptArm → List ℕ → Option ℕ → State → State
    generate_excepts (except_arm id codes body no_excepts) (label ∷ labels) end s =
        let s1 = push_stack 1 (define_label (some label) s) in
        let s2 = pop_stack 1 (emit_byte op_pop (put_exception id s1)) in
        define_label end (generate_stmt body s2)
    generate_excepts (except_arm id codes body (except_arm id' codes' body' arms)) (label ∷ labels)
          end s =
        let s1 = push_stack 1 (define_label (some label) s) in
        let s2 = pop_stack 1 (emit_byte op_pop (put_exception id s1)) in
        let s3 = emit_byte op_jump (generate_stmt body s2) in
        generate_excepts (except_arm id' codes' body' arms) labels (some (num_bytes s3))
          (add_linked_label end s3)
    generate_excepts arms labels end s = define_label end s

  unfoldable pub stmt_to_code : Stmt → GState → State
  stmt_to_code stmt gstate = finish_code (generate_stmt stmt (init_state gstate))

  -- `none` is a panic.
  unfoldable pub generate_code : Stmt → Option Program
  generate_code stmt =
      let s = stmt_to_code stmt init_gstate in if s.panicked then none else some (program_of s)
