-- ===== src/Compiler/Balance.antt =====
-- How code_gen.cc keeps count of the stack of the code that it emits.
pub mod Parts
pub mod Exprs
pub mod Loops
pub mod Steps
pub mod Stmts
use stunt.Prelude.{
  ℕ, suc, ◌+◌, ◌-◌, ◌≤◌, ◌≡◌, refl, sym, ap, subst, ◌∙◌, Bool, true, false, List, map, arith, leb,
  length, Bool-cases, inl, inr,
}
use mathlib.Core.Option.{Option, none, some}
use stunt.Value.{Floats, Var}
use stunt.Compiler.State.{
  FixupKind, fixup_literal, fixup_fork, fixup_label, fixup_var_ref, fixup_stack, Fixup, Cell, op,
  eop, raw, Bytecodes, Loop, State,
}
use stunt.Compiler.Opcode.{ExtendedOpcode, Opcode, op_extended, num_ready_vars}
use stunt.Compiler.Counted.{
  IsCounted, plain-IsCounted, ref-IsCounted, same-IsCounted, patched-IsCounted,
}
use stunt.Compiler.Counts.{mark}
use stunt.Compiler.Emit.{
  emit_cell, emit_byte, emit_raw, emit_extended_byte, add_known_fixup, add_linked_fixup,
  count_literal, count_fork, add_fork, count_var_ref, add_var_ref, count_label, add_linked_label,
  add_label, add_pseudo_label, add_known_label, define_label, add_stack_ref, push_stack, pop_stack,
  emit_var_op,
}

abbrev pub names_of : Loop → Option ℕ × Option ℕ
names_of loop = (loop.id, loop.index)

-- From one state to a later one: `n` values more on the stack, which the largest level covers if it
-- did before, the same saved stack and the same loops, no panic, and references counted.
pub record Lifts (n : ℕ) (s s' : State) : Type 0 where
  pub alive : s'.panicked ≡ s.panicked
  pub level : s'.cur_stack ≡ n + s.cur_stack
  pub saved : s'.saved_stack ≡ s.saved_stack
  pub loops : map names_of s'.loops ≡ map names_of s.loops
  pub peak : s.cur_stack ≤ s.max_stack → s'.cur_stack ≤ s'.max_stack
  pub counts : IsCounted s → IsCounted s'

pub lifts_none : (s : State) → Lifts 0 s s
lifts_none s = record {
  alive = refl;
  level = omega arith;
  saved = refl;
  loops = refl;
  peak = λ h. h;
  counts = λ c. c;
}

pub lifts_then : (m n : ℕ) (s s1 s2 : State) → Lifts m s s1 → Lifts n s1 s2 → Lifts (n + m) s s2
lifts_then m n s s1 s2 a b = record {
  alive = b.alive ∙ a.alive;
  level = omega (arith, a.level, b.level);
  saved = b.saved ∙ a.saved;
  loops = b.loops ∙ a.loops;
  peak = λ h. b.peak (a.peak h);
  counts = λ c. b.counts (a.counts c);
}

pub lifts_as : (m n : ℕ) (s s' : State) → m ≡ n → Lifts m s s' → Lifts n s s'
lifts_as m n s s' e a = subst (λ k. Lifts k s s') e a

-- Emitting leaves the stack as it is.
pub emit_cell-Lifts :
    (x : Cell) (n : ℕ) (s0 s : State)
    → ((k : FixupKind) → mark k x ≡ 0)
    → Lifts n s0 s
    → Lifts n s0 (emit_cell x s)
unfolding emit_cell
emit_cell-Lifts x n s0 s m a = record {
  alive = a.alive;
  level = a.level;
  saved = a.saved;
  loops = a.loops;
  peak = a.peak;
  counts = λ c. plain-IsCounted x s _ m refl refl refl (a.counts c);
}

pub push_stack-Lifts : (k n : ℕ) (s0 s : State) → Lifts n s0 s → Lifts (k + n) s0 (push_stack k s)
unfolding push_stack
push_stack-Lifts k n s0 s a = record {
  alive = a.alive;
  level = omega (arith, a.level);
  saved = a.saved;
  loops = a.loops;
  peak = λ h. ground (arith, a.peak h);
  counts = λ c. same-IsCounted s _ refl refl refl (a.counts c);
}

pub pop_stack-Lifts : (k n : ℕ) (s0 s : State) → Lifts (k + n) s0 s → Lifts n s0 (pop_stack k s)
unfolding pop_stack
pop_stack-Lifts k n s0 s a = record {
  alive = a.alive;
  level = omega (arith, a.level);
  saved = a.saved;
  loops = a.loops;
  peak = λ h. omega (arith, a.peak h);
  counts = λ c. same-IsCounted s _ refl refl refl (a.counts c);
}

module _ (n : ℕ) (s0 s : State) (a : Lifts n s0 s) where
  pub emit_byte-Lifts : (o : Opcode) → Lifts n s0 (emit_byte o s)
  unfolding emit_byte
  emit_byte-Lifts o = emit_cell-Lifts (op o) n s0 s (λ k. refl) a

  pub emit_raw-Lifts : (k : ℕ) → Lifts n s0 (emit_raw k s)
  unfolding emit_raw
  emit_raw-Lifts k = emit_cell-Lifts (raw k) n s0 s (λ k. refl) a

  pub put_literal-Lifts :
      (v : Var) (i : ℕ) → Lifts n s0 (count_literal v i (add_linked_fixup fixup_literal i none s))
  unfolding count_literal add_linked_fixup add_known_fixup emit_cell
  put_literal-Lifts v i = record {
    alive = a.alive;
    level = a.level;
    saved = a.saved;
    loops = a.loops;
    peak = a.peak;
    counts = λ c. ref-IsCounted fixup_literal _ s _ refl refl refl refl (a.counts c);
  }

  pub add_var_ref-Lifts : (slot : ℕ) → Lifts n s0 (add_var_ref slot s)
  unfolding add_var_ref count_var_ref add_linked_fixup add_known_fixup emit_cell
  add_var_ref-Lifts slot = record {
    alive = a.alive;
    level = a.level;
    saved = a.saved;
    loops = a.loops;
    peak = a.peak;
    counts = λ c. ref-IsCounted fixup_var_ref _ s _ refl refl refl refl (a.counts c);
  }

  pub add_fork-Lifts : (b : Bytecodes) → Lifts n s0 (add_fork b s)
  unfolding add_fork count_fork add_linked_fixup add_known_fixup emit_cell
  add_fork-Lifts b = record {
    alive = a.alive;
    level = a.level;
    saved = a.saved;
    loops = a.loops;
    peak = a.peak;
    counts = λ c. ref-IsCounted fixup_fork _ s _ refl refl refl refl (a.counts c);
  }

  pub add_linked_label-Lifts : (next : Option ℕ) → Lifts n s0 (add_linked_label next s)
  unfolding add_linked_label count_label add_linked_fixup add_known_fixup emit_cell
  add_linked_label-Lifts next = record {
    alive = a.alive;
    level = a.level;
    saved = a.saved;
    loops = a.loops;
    peak = a.peak;
    counts = λ c. ref-IsCounted fixup_label _ s _ refl refl refl refl (a.counts c);
  }

  pub add_pseudo_label-Lifts : (value : ℕ) → Lifts n s0 (add_pseudo_label value s)
  unfolding add_pseudo_label count_label add_known_fixup emit_cell
  add_pseudo_label-Lifts value = record {
    alive = a.alive;
    level = a.level;
    saved = a.saved;
    loops = a.loops;
    peak = a.peak;
    counts = λ c. ref-IsCounted fixup_label _ s _ refl refl refl refl (a.counts c);
  }

  pub add_known_label-Lifts :
      (f : Fixup) → (IsCounted s → f.kind ≡ fixup_label) → Lifts n s0 (add_known_label f s)
  unfolding add_known_label count_label add_known_fixup emit_cell
  add_known_label-Lifts f e = record {
    alive = a.alive;
    level = a.level;
    saved = a.saved;
    loops = a.loops;
    peak = a.peak;
    counts = λ c. ref-IsCounted fixup_label _ s _ (e (a.counts c)) refl refl refl (a.counts c);
  }

  pub add_stack_ref-Lifts : (index : ℕ) → Lifts n s0 (add_stack_ref index s)
  unfolding add_stack_ref add_linked_fixup add_known_fixup emit_cell
  add_stack_ref-Lifts index = record {
    alive = a.alive;
    level = a.level;
    saved = a.saved;
    loops = a.loops;
    peak = a.peak;
    counts = λ c. ref-IsCounted fixup_stack _ s _ refl refl refl refl (a.counts c);
  }

  pub define_label-Lifts : (label : Option ℕ) → Lifts n s0 (define_label label s)
  unfolding define_label
  define_label-Lifts label = record {
    alive = a.alive;
    level = a.level;
    saved = a.saved;
    loops = a.loops;
    peak = a.peak;
    counts = λ c.
        patched-IsCounted s _ (length s.bytes) (length s.bytes) s.num label refl refl refl
          (a.counts c);
  }

module _ (n : ℕ) (s0 s : State) (a : Lifts n s0 s) where
  pub emit_extended_byte-Lifts : (o : ExtendedOpcode) → Lifts n s0 (emit_extended_byte o s)
  unfolding emit_extended_byte
  emit_extended_byte-Lifts o =
      emit_cell-Lifts (eop o) n s0 _ (λ k. refl) (emit_byte-Lifts n s0 s a op_extended)

  pub add_label-Lifts : Lifts n s0 (add_label s)
  unfolding add_label
  add_label-Lifts = add_linked_label-Lifts n s0 s a none

  pub emit_var_op-Lifts :
      (ready : ℕ → Opcode) (general : Opcode) (slot : ℕ)
      → Lifts n s0 (emit_var_op ready general slot s)
  unfolding emit_var_op
  emit_var_op-Lifts ready general slot = elim (Bool-cases (leb num_ready_vars slot)) [
    | inl h ↦ rw h (add_var_ref-Lifts n s0 _ (emit_byte-Lifts n s0 s a general) slot)
    | inr h ↦ rw h (emit_byte-Lifts n s0 s a (ready slot))
  ]
