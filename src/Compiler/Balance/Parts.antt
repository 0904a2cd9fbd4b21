-- ===== src/Compiler/Balance/Parts.antt =====
-- What the parts of an expression do to the stack of the code.
use stunt.Prelude.{
  ℕ, suc, ◌+◌, ◌≡◌, refl, ap, ◌∙◌, Bool, true, false, List, [], ◌∷◌, arith, ◌==◌, Bool-cases, inl,
  inr, ◌⊎◌,
}
use mathlib.Core.Option.{Option, none, some}
use stunt.Value
use stunt.Value.{Floats, Var, type_of}
use stunt.Value.Equality.{equality}
use stunt.Compiler.Syntax.{
  absent, present, Scatter, scat_end, scat_required, scat_rest, scat_optional, Lvalue, lvalue_id,
  lvalue_prop, lvalue_index, lvalue_range,
}
use stunt.Compiler.Scoped.{IsLiteral, IsPlace}
use stunt.Compiler.State.{State}
use stunt.Compiler.Opcode.{
  ExtendedOpcode, eop_rangeset, eop_scatter, Opcode, op_indexset, op_put_prop, op_put, op_push,
  op_g_put, op_g_push, op_imm, op_put_temp, op_push_temp, op_pop,
}
use stunt.Compiler.Emit.{literal_slot, add_literal, save_stack_top, restore_stack_top}
use stunt.Compiler.Counted.{same-IsCounted}
use stunt.Compiler.Pieces.{
  optim_num_to_opcode, generate_var, end_at, push_id, scatter_refs, emit_scatter, store_lvalue,
  assign, short_circuit,
}
use stunt.Compiler.Balance.{
  Lifts, lifts_none, lifts_then, lifts_as, push_stack-Lifts, pop_stack-Lifts, emit_byte-Lifts,
  emit_raw-Lifts, put_literal-Lifts, add_var_ref-Lifts, add_pseudo_label-Lifts, add_stack_ref-Lifts,
  emit_extended_byte-Lifts, add_label-Lifts, emit_var_op-Lifts,
}

abbrev pub is_saved : Option ℕ → Bool
is_saved none = false
is_saved (some saved) = true

abbrev pub has_saved : State → Bool
has_saved s = is_saved s.saved_stack

-- The comparison with a constant of the language does not panic.
equality_answers :
    (f : Floats) (v w : Var)
    → IsLiteral v
    → (equality f true v w ≡ some true) ⊎ (equality f true v w ≡ some false)
unfolding equality
equality_answers f (Value.int a) w h = ground arith
equality_answers f (Value.obj a) w h = ground arith
equality_answers f (Value.str a) w h = ground arith
equality_answers f (Value.err a) w h = ground arith
equality_answers f (Value.float a) w h = ground arith
equality_answers f (Value.none) w h = ground arith
equality_answers f (Value.list xs) w h = elim h [ ]
equality_answers f (Value.clear) w h = elim h [ ]
equality_answers f (Value.catch n) w h = elim h [ ]
equality_answers f (Value.finally n) w h = elim h [ ]
equality_answers f (Value.map t n) w h = elim h [ ]
equality_answers f (Value.iter p) w h = elim h [ ]
equality_answers f (Value.anon p) w h = elim h [ ]

pub literal_slot_answers :
    (f : Floats) (v : Var) (ws : List Var) → IsLiteral v → (i : ℕ) × (literal_slot f v ws ≡ some i)
unfolding literal_slot
literal_slot_answers f v [] h = (0, refl)
literal_slot_answers f v (w ∷ ws) h =
    let (i, e) = literal_slot_answers f v ws h in
    elim (Bool-cases (type_of v == type_of w)) [
      | inl t ↦ elim (equality_answers f v w h) [
        | inl q ↦ (0, rw (t, q) refl)
        | inr q ↦ (suc i, rw (t, q, e) refl)
      ]
      | inr t ↦ (suc i, rw (t, e) refl)
    ]

pub add_literal-Lifts :
    (f : Floats) (v : Var) (n : ℕ) (s0 s : State)
    → IsLiteral v
    → Lifts n s0 s
    → Lifts n s0 (add_literal f v s)
unfolding add_literal
add_literal-Lifts f v n s0 s h a =
    let (i, e) = literal_slot_answers f v s.gstate.literals h in
    rw (e, add_literal) (put_literal-Lifts n s0 s a v i)

pub generate_var-Lifts :
    (f : Floats) (v : Var) (s : State) → IsLiteral v → Lifts 1 s (generate_var f v s)
unfolding generate_var
generate_var-Lifts f v s h = push_stack-Lifts 1 0 s _ (
    ground (
      arith,
      emit_byte-Lifts 0 s s (lifts_none s) (optim_num_to_opcode v),
      add_literal-Lifts f v 0 s _ h (emit_byte-Lifts 0 s s (lifts_none s) op_imm),
    ))

pub end_at-Lifts :
    (o : ExtendedOpcode) (saved : Option ℕ) (s : State)
    → is_saved saved ≡ true
    → Lifts 1 s (end_at o saved s)
unfolding end_at
end_at-Lifts o none s h = absurd (ground (arith, h))
end_at-Lifts o (some saved) s h =
    push_stack-Lifts 1 0 s _
      (add_stack_ref-Lifts 0 s _ (emit_extended_byte-Lifts 0 s s (lifts_none s) o) saved)

pub push_id-Lifts : (id : ℕ) (s : State) → Lifts 1 s (push_id id s)
unfolding push_id
push_id-Lifts id s =
    push_stack-Lifts 1 0 s _ (emit_var_op-Lifts 0 s s (lifts_none s) op_push op_g_push id)

pub scatter_refs-Lifts :
    (sc : Scatter) (n : ℕ) (s0 s : State) → Lifts n s0 s → Lifts n s0 (scatter_refs sc s)
unfolding scatter_refs
scatter_refs-Lifts scat_end n s0 s a = a
scatter_refs-Lifts (scat_required id sc) n s0 s a =
    scatter_refs-Lifts sc n s0 _ (add_pseudo_label-Lifts n s0 _ (add_var_ref-Lifts n s0 s a id) 0)
scatter_refs-Lifts (scat_rest id sc) n s0 s a =
    scatter_refs-Lifts sc n s0 _ (add_pseudo_label-Lifts n s0 _ (add_var_ref-Lifts n s0 s a id) 0)
scatter_refs-Lifts (scat_optional id absent sc) n s0 s a =
    scatter_refs-Lifts sc n s0 _ (add_pseudo_label-Lifts n s0 _ (add_var_ref-Lifts n s0 s a id) 1)
scatter_refs-Lifts (scat_optional id (present e) sc) n s0 s a =
    scatter_refs-Lifts sc n s0 _ (add_label-Lifts n s0 _ (add_var_ref-Lifts n s0 s a id))

pub emit_scatter-Lifts :
    (sc : Scatter) (n : ℕ) (s0 s : State) → Lifts n s0 s → Lifts n s0 (emit_scatter sc s)
unfolding emit_scatter
emit_scatter-Lifts sc n s0 s a =
    emit_raw-Lifts n s0 _
      (emit_raw-Lifts n s0 _
        (emit_raw-Lifts n s0 _ (emit_extended_byte-Lifts n s0 s a eop_scatter) _) _)
      _

pub short_circuit-Lifts :
    (o : Opcode) (n : ℕ) (s0 s : State) → Lifts (1 + n) s0 s → Lifts n s0 (short_circuit o s)
unfolding short_circuit
short_circuit-Lifts o n s0 s a =
    pop_stack-Lifts 1 n s0 _ (add_label-Lifts (1 + n) s0 _ (emit_byte-Lifts (1 + n) s0 s a o))

-- What the place of an assignment has on the stack, before and after a value is pushed.
unfoldable pub pushed : Lvalue → ℕ
pushed (lvalue_id id) = 0
pushed (lvalue_prop l r) = 2
pushed (lvalue_index base at) = 2 + pushed base
pushed (lvalue_range base from to) = 3 + pushed base

pub store_lvalue-Lifts :
    (b : Bool) (e : Lvalue) (s0 s : State)
    → IsPlace b e
    → Lifts (1 + pushed e) s0 s
    → Lifts 1 s0 (store_lvalue e s)
unfolding store_lvalue IsPlace pushed
store_lvalue-Lifts b (lvalue_id id) s0 s h a = emit_var_op-Lifts 1 s0 s a op_put op_g_put id
store_lvalue-Lifts b (lvalue_prop l r) s0 s h a =
    pop_stack-Lifts 2 1 s0 _ (emit_byte-Lifts 3 s0 s a op_put_prop)
store_lvalue-Lifts b (lvalue_index base at) s0 s (hb, hp, ha) a =
    store_lvalue-Lifts b base s0 _ hp (
      pop_stack-Lifts 2 (1 + pushed base) s0 _
        (emit_byte-Lifts _ s0 s (lifts_as _ _ s0 s (omega arith) a) op_indexset))
store_lvalue-Lifts b (lvalue_range base from to) s0 s (hb, hp, hf, ht) a =
    store_lvalue-Lifts b base s0 _ hp (
      pop_stack-Lifts 3 (1 + pushed base) s0 _
        (emit_extended_byte-Lifts _ s0 s (lifts_as _ _ s0 s (omega arith) a) eop_rangeset))

pub assign-Lifts :
    (b : Bool) (e : Lvalue) (s0 s : State)
    → IsPlace b e
    → Lifts (1 + pushed e) s0 s
    → Lifts 1 s0 (assign e s)
unfolding assign
assign-Lifts b e s0 s h a = ground (
  arith,
  store_lvalue-Lifts b e s0 s h a,
  emit_byte-Lifts 1 s0 _
      (emit_byte-Lifts 1 s0 _ (store_lvalue-Lifts b e s0 _ h (emit_byte-Lifts _ s0 s a op_put_temp))
        op_pop)
      op_push_temp,
)

-- Where `^` and `$` may stand, there is a saved stack.
abbrev pub Fits : Bool → State → Type 0
Fits b s = b ≡ true → has_saved s ≡ true

-- `n` values more from every such state.
abbrev pub Effect : Bool → ℕ → (State → State) → Type 0
Effect b n g = (s : State) → Fits b s → Lifts n s (g s)

pub extend :
    (b : Bool) (m n : ℕ) (g : State → State) (s s1 : State)
    → Fits b s
    → Lifts m s s1
    → Effect b n g
    → Lifts (n + m) s (g s1)
extend b m n g s s1 k a e = lifts_then m n s s1 (g s1) a (e s1 λ h. ap is_saved a.saved ∙ k h)

pub both :
    (b : Bool) (m n : ℕ) (g h : State → State)
    → Effect b m g
    → Effect b n h
    → Effect b (n + m) (λ s. h (g s))
both b m n g h a e s k = extend b m n h s (g s) k (a s k) e

-- An index is made with the stack saved.
pub restored :
    (n : ℕ) (g : State → State) (s : State)
    → Effect true n g
    → Lifts n s (restore_stack_top s.saved_stack (g (save_stack_top s)))
unfolding restore_stack_top save_stack_top
restored n g s e =
    let a = e (save_stack_top s) (λ h. refl) in
    record {
      alive = a.alive;
      level = a.level;
      saved = refl;
      loops = a.loops;
      peak = a.peak;
      counts =
          λ c. same-IsCounted _ _ refl refl refl (a.counts (same-IsCounted s _ refl refl refl c));
    }
