-- ===== src/Compiler/State.antt =====
-- code_gen.cc: `struct state` and what it holds.
use stunt.Prelude.{ℕ, Bool, false, Option, none, List, []}
use stunt.Value.{Var}
use stunt.Compiler.Opcode.{Opcode, ExtendedOpcode}

-- `enum fixup_kind`
pub data FixupKind : Type 0 where
  fixup_literal fixup_fork fixup_label fixup_var_ref fixup_stack : FixupKind

-- The numbers of references, in the state and, as `prev_literals` and so on, in a fixup.
pub record Refs : Type 0 where
  pub literals : ℕ
  pub forks : ℕ
  pub var_refs : ℕ
  pub labels : ℕ
  pub stacks : ℕ

-- `struct fixup`. The code's array of fixups lies within the emitted bytes here, each fixup at
-- its `pc`; `next` is the place of the next fixup of a chain.
pub record Fixup : Type 0 where
  pub kind : FixupKind
  pub value : ℕ
  pub prev : Refs
  pub next : Option ℕ

-- What `bytes` holds at a place: an opcode, another byte, or the placeholder of a fixup.
pub data Cell : Type 0 where
  op : Opcode → Cell
  eop : ExtendedOpcode → Cell
  raw : ℕ → Cell
  ref : Fixup → Cell

-- `Bytecodes`
pub record Bytecodes : Type 0 where
  pub numbytes_label : ℕ
  pub numbytes_literal : ℕ
  pub numbytes_fork : ℕ
  pub numbytes_var_name : ℕ
  pub numbytes_stack : ℕ
  pub vector : List ℕ
  pub size : ℕ
  pub max_stack : ℕ

-- `struct gstate`
pub record GState : Type 0 where
  pub total_var_refs : ℕ
  pub literals : List Var
  pub fork_vectors : List Bytecodes

-- `struct loop`; `top_label` is a captured label.
pub record Loop : Type 0 where
  pub id : Option ℕ
  pub index : Option ℕ
  pub top_label : Fixup
  pub top_stack : ℕ
  pub bottom_label : Option ℕ
  pub bottom_stack : ℕ

-- `struct state`: `num` holds `num_literals` and so on, `max_literal` and so on are the largest
-- references, the innermost loop comes first, and no saved stack is `none`. A call of `panic`,
-- which ends the server, sets `panicked`.
pub record State : Type 0 where
  pub max_literal : ℕ
  pub max_fork : ℕ
  pub max_var_ref : ℕ
  pub num : Refs
  pub bytes : List Cell
  pub cur_stack : ℕ
  pub max_stack : ℕ
  pub saved_stack : Option ℕ
  pub loops : List Loop
  pub gstate : GState
  pub panicked : Bool

unfoldable pub init_gstate : GState
init_gstate = record { total_var_refs = 0; literals = []; fork_vectors = [] }

abbrev pub no_refs : Refs
no_refs = record { literals = 0; forks = 0; var_refs = 0; labels = 0; stacks = 0 }

unfoldable pub init_state : GState → State
init_state gstate = record {
  max_literal = 0;
  max_fork = 0;
  max_var_ref = 0;
  num = no_refs;
  bytes = [];
  cur_stack = 0;
  max_stack = 0;
  saved_stack = none;
  loops = [];
  gstate = gstate;
  panicked = false;
}
