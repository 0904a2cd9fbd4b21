-- ===== src/Compiler/Layout.antt =====
-- The sizes and the places of the laid-out code.
use stunt.Prelude.{
  ℕ, zero, suc, ◌+◌, ◌-◌, ◌*◌, ◌/◌, ◌%◌, ◌≤◌, ◌≡◌, refl, ap, List, [], ◌∷◌, arith, length,
  length-append,
}
use stunt.Compiler.State.{
  FixupKind, fixup_literal, fixup_fork, fixup_label, fixup_var_ref, fixup_stack, Cell, op, eop, raw,
  ref, State,
}
use stunt.Compiler.Emit.{num_bytes, capture_label}
use stunt.Compiler.Counted.{IsCounted}
use stunt.Compiler.Counts.{mark_kind, count_refs}
use stunt.Compiler.Assemble.{
  ref_size, Sizes, size_but_labels, label_size, sizes, vector_size, size_of, widened, fixup_value,
  value_bytes, cell_bytes, lay_out, assemble,
}

pub record AreSizes (z : Sizes) : Type 0 where
  pub literal : 1 ≤ z.literal
  pub fork : 1 ≤ z.fork
  pub label : 1 ≤ z.label
  pub var_name : 1 ≤ z.var_name
  pub stack : 1 ≤ z.stack

length-value_bytes : (n v : ℕ) → length (value_bytes n v) ≡ n
unfolding value_bytes
length-value_bytes zero v = refl
length-value_bytes (suc n) v = omega (
  arith,
  length-append (value_bytes n (v / 256)) ((v % 256) ∷ []),
  length-value_bytes n (v / 256),
)

-- The further bytes of the references among the cells.
unfoldable pub extra : Sizes → List Cell → ℕ
extra z cs =
    (z.literal - 1) * count_refs fixup_literal cs
    + (z.fork - 1) * count_refs fixup_fork cs
    + (z.label - 1) * count_refs fixup_label cs
    + (z.var_name - 1) * count_refs fixup_var_ref cs
    + (z.stack - 1) * count_refs fixup_stack cs

one_reference :
    (z : Sizes) (k : FixupKind) (cs : List Cell)
    → AreSizes z
    → size_of z k + extra z cs
      ≡ 1
        + ((z.literal - 1) * (mark_kind fixup_literal k + count_refs fixup_literal cs)
            + (z.fork - 1) * (mark_kind fixup_fork k + count_refs fixup_fork cs)
            + (z.label - 1) * (mark_kind fixup_label k + count_refs fixup_label cs)
            + (z.var_name - 1) * (mark_kind fixup_var_ref k + count_refs fixup_var_ref cs)
            + (z.stack - 1) * (mark_kind fixup_stack k + count_refs fixup_stack cs))
unfolding extra size_of
one_reference z fixup_literal cs h = omega (arith, h.literal)
one_reference z fixup_fork cs h = omega (arith, h.fork)
one_reference z fixup_label cs h = omega (arith, h.label)
one_reference z fixup_var_ref cs h = omega (arith, h.var_name)
one_reference z fixup_stack cs h = omega (arith, h.stack)

length-cell_bytes :
    (z : Sizes) (c : Cell) (cs : List Cell)
    → AreSizes z
    → length (cell_bytes z c) + extra z cs ≡ 1 + extra z (c ∷ cs)
unfolding cell_bytes extra count_refs size_of
length-cell_bytes z (op o) cs h = omega arith
length-cell_bytes z (eop e) cs h = omega arith
length-cell_bytes z (raw n) cs h = omega arith
length-cell_bytes z (ref f) cs h =
    omega
      (arith, length-value_bytes (size_of z f.kind) (fixup_value z f), one_reference z f.kind cs h)

pub length-lay_out :
    (z : Sizes) (cs : List Cell) → AreSizes z → length (lay_out z cs) ≡ length cs + extra z cs
unfolding lay_out
length-lay_out z [] h = unfold extra count_refs in omega arith
length-lay_out z (c ∷ cs) h = omega (
  arith,
  length-append (cell_bytes z c) (lay_out z cs),
  length-lay_out z cs h,
  length-cell_bytes z c cs h,
)

ref_size_positive : (n : ℕ) → 1 ≤ ref_size n
unfolding ref_size
ref_size_positive n = ground arith

pub sizes-AreSizes : (s : State) → AreSizes (sizes s)
unfolding sizes label_size
sizes-AreSizes s = record {
  literal = ref_size_positive _;
  fork = ref_size_positive _;
  label = ground arith;
  var_name = ref_size_positive _;
  stack = ref_size_positive _;
}

module _ (s : State) (c : IsCounted s) where
  -- What `bc.size` leaves out.
  pub length-assemble :
      length (assemble s).vector
      ≡ (assemble s).size + ((assemble s).numbytes_stack - 1) * count_refs fixup_stack s.bytes
  unfolding assemble vector_size size_but_labels num_bytes extra
  length-assemble =
      let z = sizes s in
      omega (
        arith,
        length-lay_out z s.bytes (sizes-AreSizes s),
        ap (λ (t : ℕ). (z.literal - 1) * t) c.literals,
        ap (λ (t : ℕ). (z.fork - 1) * t) c.forks,
        ap (λ (t : ℕ). (z.label - 1) * t) c.labels,
        ap (λ (t : ℕ). (z.var_name - 1) * t) c.var_refs,
      )

  -- The place of a label in the laid-out code.
  pub place :
      (z : Sizes)
      → AreSizes z
      → fixup_value z (capture_label s) + (z.stack - 1) * count_refs fixup_stack s.bytes
        ≡ length (lay_out z s.bytes)
  unfolding fixup_value capture_label widened extra num_bytes
  place z h = omega (
    arith,
    length-lay_out z s.bytes h,
    ap (λ (t : ℕ). (z.stack - 1) * t) c.stacks,
    ap (λ (t : ℕ). (z.literal - 1) * t) c.literals,
    ap (λ (t : ℕ). (z.fork - 1) * t) c.forks,
    ap (λ (t : ℕ). (z.label - 1) * t) c.labels,
    ap (λ (t : ℕ). (z.var_name - 1) * t) c.var_refs,
  )
