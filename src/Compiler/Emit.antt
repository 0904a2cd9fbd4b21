-- ===== src/Compiler/Emit.antt =====
-- code_gen.cc: the functions that emit into the state of the generator.
use stunt.Prelude.{
  ℕ, zero, suc, ◌+◌, ◌-◌, true, false, List, [], ◌∷◌, ◌++◌, ◌==◌, ltb, leb, length, get_elem?, set,
  if◌then◌else◌,
}
use mathlib.Core.Option.{Option, none, some}
use mathlib.Core.Option
use stunt.Value.{Floats, Var, type_of}
use stunt.Value.Equality.{equality}
use stunt.Compiler.Opcode.{ExtendedOpcode, Opcode, op_extended, num_ready_vars}
use stunt.Compiler.State.{
  FixupKind, fixup_literal, fixup_fork, fixup_label, fixup_var_ref, fixup_stack, Refs, Fixup, Cell,
  op, eop, raw, ref, Bytecodes, Loop, State, no_refs,
}

unfoldable pub panic : State → State
panic s = record s { panicked = true }

unfoldable pub num_bytes : State → ℕ
num_bytes s = length s.bytes

unfoldable pub emit_cell : Cell → State → State
emit_cell c s = record s { bytes = s.bytes ++ (c ∷ []) }

unfoldable pub emit_byte : Opcode → State → State
unfolding emit_cell
emit_byte o = emit_cell (op o)

unfoldable pub emit_raw : ℕ → State → State
emit_raw n = emit_cell (raw n)

unfoldable pub emit_extended_byte : ExtendedOpcode → State → State
emit_extended_byte e s = emit_cell (eop e) (emit_byte op_extended s)

-- `add_known_fixup`, which `add_known_label` calls.
unfoldable pub add_known_fixup : Fixup → State → State
add_known_fixup f = emit_cell (ref f)

unfoldable pub add_linked_fixup : FixupKind → ℕ → Option ℕ → State → State
add_linked_fixup kind value next s =
    add_known_fixup (record { kind = kind; value = value; prev = s.num; next = next }) s

-- The slot of the first literal that equals the value and has its type, or the number of the
-- literals; `none` where `equality` panics.
unfoldable pub literal_slot : Floats → Var → List Var → Option ℕ
literal_slot f v [] = some 0
literal_slot f v (w ∷ ws) =
    let next = Option.map suc (literal_slot f v ws) in
    if type_of v == type_of w
    then elim (equality f true v w) [ none ↦ none | some true ↦ some 0 | some false ↦ next ]
    else next

abbrev pub at_least : ℕ → ℕ → ℕ
at_least new old = if ltb old new then new else old

-- A new literal is the last of the table.
abbrev pub intern : Var → ℕ → List Var → List Var
intern v i literals = if i == length literals then literals ++ (v ∷ []) else literals

unfoldable pub count_literal : Var → ℕ → State → State
count_literal v i s = record s {
  num = record (s.num) { literals = suc (s.num.literals) };
  max_literal = at_least i s.max_literal;
  gstate = record (s.gstate) { literals = intern v i s.gstate.literals };
}

unfoldable pub add_literal : Floats → Var → State → State
add_literal f v s = elim (literal_slot f v s.gstate.literals) [
  | none ↦ panic s
  | some i ↦ count_literal v i (add_linked_fixup fixup_literal i none s)
]

unfoldable pub count_fork : Bytecodes → State → State
count_fork b s = record s {
  num = record (s.num) { forks = suc (s.num.forks) };
  max_fork = at_least (length s.gstate.fork_vectors) s.max_fork;
  gstate = record (s.gstate) { fork_vectors = s.gstate.fork_vectors ++ (b ∷ []) };
}

unfoldable pub add_fork : Bytecodes → State → State
add_fork b s = count_fork b (add_linked_fixup fixup_fork (length s.gstate.fork_vectors) none s)

unfoldable pub count_var_ref : ℕ → State → State
count_var_ref slot s = record s {
  num = record (s.num) { var_refs = suc (s.num.var_refs) };
  max_var_ref = at_least slot s.max_var_ref;
  gstate = record (s.gstate) { total_var_refs = suc (s.gstate.total_var_refs) };
}

unfoldable pub add_var_ref : ℕ → State → State
add_var_ref slot s = count_var_ref slot (add_linked_fixup fixup_var_ref slot none s)

unfoldable pub count_label : State → State
count_label s = record s { num = record (s.num) { labels = suc (s.num.labels) } }

-- The label that `add_linked_label` and `add_label` give back is the place of its placeholder,
-- `num_bytes` before the call.
unfoldable pub add_linked_label : Option ℕ → State → State
add_linked_label next s = count_label (add_linked_fixup fixup_label 0 next s)

unfoldable pub add_label : State → State
add_label = add_linked_label none

unfoldable pub add_pseudo_label : ℕ → State → State
add_pseudo_label value s =
    count_label (
      add_known_fixup (record { kind = fixup_label; value = value; prev = no_refs; next = none }) s)

unfoldable pub add_known_label : Fixup → State → State
add_known_label f s = count_label (add_known_fixup f s)

unfoldable pub capture_label : State → Fixup
capture_label s = record { kind = fixup_label; value = num_bytes s; prev = s.num; next = none }

abbrev pub resolve : ℕ → Refs → Fixup → Fixup
resolve value prev f = record f { value = value; prev = prev }

-- The loop of `define_label`. Chains go back to earlier places, so there are no more rounds than
-- bytes; a place that is no fixup ends it, and the code has none such.
unfoldable pub define_chain : ℕ → ℕ → Refs → Option ℕ → List Cell → List Cell
define_chain zero value prev label cells = cells
define_chain (suc fuel) value prev none cells = cells
define_chain (suc fuel) value prev (some i) cells = elim (get_elem? cells i) [
  | some (ref f) ↦ define_chain fuel value prev f.next (set cells i (ref (resolve value prev f)))
  | other ↦ cells
]

unfoldable pub define_label : Option ℕ → State → State
define_label label s = record s {
  bytes = define_chain (length s.bytes) (length s.bytes) s.num label s.bytes;
}

-- `num_stacks` is never counted.
unfoldable pub add_stack_ref : ℕ → State → State
add_stack_ref index = add_linked_fixup fixup_stack index none

unfoldable pub push_stack : ℕ → State → State
push_stack n s = record s {
  cur_stack = s.cur_stack + n;
  max_stack = at_least (s.cur_stack + n) s.max_stack;
}

unfoldable pub pop_stack : ℕ → State → State
pop_stack n s = record s { cur_stack = s.cur_stack - n }

-- The saved stack that `save_stack_top` gives back is that of the state before.
unfoldable pub save_stack_top : State → State
save_stack_top s = record s { saved_stack = some (s.cur_stack - 1) }

unfoldable pub restore_stack_top : Option ℕ → State → State
restore_stack_top old s = record s { saved_stack = old }

unfoldable pub enter_loop : Loop → State → State
enter_loop loop s = record s { loops = loop ∷ s.loops }

-- `exit_loop` gives back the bottom label of the innermost loop, which it leaves.
unfoldable pub innermost_bottom : State → Option ℕ
innermost_bottom s = elim s.loops [ [] ↦ none | loop ∷ loops ↦ loop.bottom_label ]

unfoldable pub outer_loops : List Loop → List Loop
outer_loops [] = []
outer_loops (loop ∷ loops) = loops

unfoldable pub exit_loop : State → State
exit_loop s = record s { loops = outer_loops s.loops }

unfoldable pub emit_var_op : (ℕ → Opcode) → Opcode → ℕ → State → State
emit_var_op ready general slot s =
    if leb num_ready_vars slot
    then add_var_ref slot (emit_byte general s)
    else emit_byte (ready slot) s
