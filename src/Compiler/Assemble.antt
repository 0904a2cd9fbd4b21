-- ===== src/Compiler/Assemble.antt =====
-- code_gen.cc: the part of `stmt_to_code` that lays the bytes out, without the pass for
-- `BYTECODE_REDUCE_REF`.
use stunt.Prelude.{
  ℕ, zero, suc, ◌+◌, ◌-◌, ◌*◌, ◌/◌, ◌%◌, List, [], ◌∷◌, ◌++◌, leb, ltb, length, if◌then◌else◌,
}
use stunt.Compiler.Opcode.{opcode_byte, extended_byte}
use stunt.Compiler.State.{
  FixupKind, fixup_literal, fixup_fork, fixup_label, fixup_var_ref, fixup_stack, Refs, Fixup, Cell,
  op, eop, raw, ref, Bytecodes, State,
}
use stunt.Compiler.Emit.{num_bytes}

unfoldable pub max : ℕ → ℕ → ℕ
max a b = if ltb b a then a else b

unfoldable pub ref_size : ℕ → ℕ
ref_size n = if leb n 256 then 1 else if leb n 65536 then 2 else 4

-- The bytes of a reference of each kind: the `numbytes_…` of the code.
pub record Sizes : Type 0 where
  pub literal : ℕ
  pub fork : ℕ
  pub label : ℕ
  pub var_name : ℕ
  pub stack : ℕ

-- `bc.size` before the labels are counted: the references to the stack are not.
unfoldable pub size_but_labels : ℕ → ℕ → ℕ → State → ℕ
size_but_labels literal fork var_name s =
    num_bytes s
    + (literal - 1) * s.num.literals
    + (fork - 1) * s.num.forks
    + (var_name - 1) * s.num.var_refs

unfoldable pub label_size : ℕ → ℕ → ℕ
label_size size num_labels =
    if leb size 256 then 1 else if leb (size + num_labels) 65536 then 2 else 4

unfoldable pub sizes : State → Sizes
sizes s =
    let literal = ref_size (max s.max_literal (length s.gstate.literals)) in
    let fork = ref_size (max s.max_fork (length s.gstate.fork_vectors)) in
    let var_name = ref_size (max s.max_var_ref s.gstate.total_var_refs) in
    record {
      literal = literal;
      fork = fork;
      label = label_size (size_but_labels literal fork var_name s) s.num.labels;
      var_name = var_name;
      stack = ref_size s.max_stack;
    }

-- `bc.size`
unfoldable pub vector_size : State → ℕ
vector_size s =
    let z = sizes s in size_but_labels z.literal z.fork z.var_name s + (z.label - 1) * s.num.labels

unfoldable pub size_of : Sizes → FixupKind → ℕ
size_of z fixup_literal = z.literal
size_of z fixup_fork = z.fork
size_of z fixup_label = z.label
size_of z fixup_var_ref = z.var_name
size_of z fixup_stack = z.stack

-- What is added to a label for the references before its target.
unfoldable pub widened : Sizes → Refs → ℕ
widened z prev =
    prev.literals * (z.literal - 1)
    + prev.forks * (z.fork - 1)
    + prev.var_refs * (z.var_name - 1)
    + prev.labels * (z.label - 1)
    + prev.stacks * (z.stack - 1)

unfoldable pub fixup_value : Sizes → Fixup → ℕ
fixup_value z f = elim f.kind [ fixup_label ↦ f.value + widened z f.prev | other ↦ f.value ]

-- The low bytes of a value, the most significant first.
unfoldable pub value_bytes : ℕ → ℕ → List ℕ
value_bytes zero value = []
value_bytes (suc n) value = value_bytes n (value / 256) ++ ((value % 256) ∷ [])

-- What the loop over the bytes writes for one of them.
unfoldable pub cell_bytes : Sizes → Cell → List ℕ
cell_bytes z (op o) = opcode_byte o ∷ []
cell_bytes z (eop e) = extended_byte e ∷ []
cell_bytes z (raw n) = (n % 256) ∷ []
cell_bytes z (ref f) = value_bytes (size_of z f.kind) (fixup_value z f)

unfoldable pub lay_out : Sizes → List Cell → List ℕ
lay_out z [] = []
lay_out z (c ∷ cs) = cell_bytes z c ++ lay_out z cs

unfoldable pub assemble : State → Bytecodes
assemble s =
    let z = sizes s in
    record {
      numbytes_label = z.label;
      numbytes_literal = z.literal;
      numbytes_fork = z.fork;
      numbytes_var_name = z.var_name;
      numbytes_stack = z.stack;
      vector = lay_out z s.bytes;
      size = vector_size s;
      max_stack = s.max_stack;
    }
