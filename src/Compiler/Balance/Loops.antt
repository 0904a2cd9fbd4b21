-- ===== src/Compiler/Balance/Loops.antt =====
-- What loops, `break` and `continue` do to the stack of the code.
use stunt.Prelude.{
  ℕ, ◌≡◌, refl, sym, ap, subst, ◌∙◌, true, ◌||◌, List, [], ◌∷◌, map, arith, Bool-cases, inl, inr,
}
use mathlib.Core.Option.{Option, none, some}
use stunt.Compiler.Scoped.{Names, has_loop}
use stunt.Compiler.State.{fixup_label, Fixup, Loop, State}
use stunt.Compiler.Opcode.{eop_exit, eop_exit_id, op_jump}
use stunt.Compiler.Emit.{
  emit_cell, add_known_fixup, add_linked_fixup, add_stack_ref, enter_loop, innermost_bottom,
  outer_loops, exit_loop,
}
use stunt.Compiler.Generate.Statements.{
  is_id, find_loop, set_bottom, emit_exit, break_from, generate_break, generate_continue,
  begin_loop, end_loop,
}
use stunt.Compiler.Balance.{
  names_of, Lifts, lifts_none, emit_byte-Lifts, add_var_ref-Lifts, add_linked_label-Lifts,
  add_known_label-Lifts, add_stack_ref-Lifts, define_label-Lifts, emit_extended_byte-Lifts,
  add_label-Lifts,
}
use stunt.Compiler.Counted.{AreLabels, retop-IsCounted}

outer_names :
    (ls : List Loop) (n : Names) (ns : List Names)
    → map names_of ls ≡ (n ∷ ns)
    → map names_of (outer_loops ls) ≡ ns
unfolding outer_loops
outer_names [] n ns h = cc
outer_names (l ∷ ls) n ns h = cc

abbrev pub Keeps : List Names → (State → State) → Type 0
Keeps loops g = (s : State) → map names_of s.loops ≡ loops → Lifts 0 s (g s)

outer_labels : (ls : List Loop) → AreLabels ls → AreLabels (outer_loops ls)
unfolding outer_loops
outer_labels [] h = h
outer_labels (l ∷ ls) (hl, h) = h

pub looped :
    (id index : Option ℕ) (top : Fixup) (pops : ℕ) (g : State → State) (s : State)
    (loops : List Names)
    → top.kind ≡ fixup_label
    → map names_of s.loops ≡ loops
    → Keeps ((id, index) ∷ loops) g
    → Lifts 0 s (end_loop top (g (begin_loop id index top pops s)))
unfolding end_loop begin_loop enter_loop exit_loop
looped id index top pops g s loops t h k =
    let s1 = begin_loop id index top pops s in
    let a0 = add_label-Lifts 0 s s (lifts_none s) in
    let a = k s1 (ap (λ ns. (id, index) ∷ ns) (a0.loops ∙ h)) in
    let b : Lifts 0 s (exit_loop (g s1)) = record {
      alive = a.alive ∙ a0.alive;
      level = omega (arith, a.level, a0.level);
      saved = a.saved ∙ a0.saved;
      loops = outer_names _ _ _ a.loops ∙ a0.loops;
      peak = λ h. a.peak (a0.peak h);
      counts = λ c.
          let c1 = a.counts (retop-IsCounted _ _ refl refl (t, (a0.counts c).tops) (a0.counts c)) in
          retop-IsCounted _ _ refl refl (outer_labels _ c1.tops) c1;
    } in
    define_label-Lifts 0 s _
      (add_known_label-Lifts 0 s _ (emit_byte-Lifts 0 s _ b op_jump) top (λ c. t))
      (innermost_bottom (g s1))

find_loop_finds :
    (exit : Option ℕ) (ls : List Loop)
    → has_loop exit (map names_of ls) ≡ true
    → (l : Loop) × (find_loop exit ls ≡ some l) × (AreLabels ls → l.top_label.kind ≡ fixup_label)
unfolding find_loop has_loop
find_loop_finds exit [] h = absurd (ground (arith, h))
find_loop_finds none (l ∷ ls) h = (l, refl, λ (hl, hs). hl)
find_loop_finds (some id) (l ∷ ls) h = elim (Bool-cases (is_id id l.id || is_id id l.index)) [
  | inl e ↦ (l, rw e refl, λ (hl, hs). hl)
  | inr e ↦
      let (m, em, hm) = find_loop_finds (some id) ls (rw e at h) in (m, rw e em, λ (hl, hs). hm hs)
]

set_bottom-labels :
    (exit : Option ℕ) (label : ℕ) (ls : List Loop)
    → AreLabels ls
    → AreLabels (set_bottom exit label ls)
unfolding set_bottom
set_bottom-labels exit label [] h = h
set_bottom-labels none label (l ∷ ls) h = h
set_bottom-labels (some id) label (l ∷ ls) (hl, h) =
    elim (Bool-cases (is_id id l.id || is_id id l.index)) [
      | inl e ↦ rw e (hl, h)
      | inr e ↦ rw e (hl, set_bottom-labels (some id) label ls h)
    ]

set_bottom-names :
    (exit : Option ℕ) (label : ℕ) (ls : List Loop)
    → map names_of (set_bottom exit label ls) ≡ map names_of ls
unfolding set_bottom
set_bottom-names exit label [] = refl
set_bottom-names none label (l ∷ ls) = refl
set_bottom-names (some id) label (l ∷ ls) = ground (arith, set_bottom-names (some id) label ls)

pub emit_exit-Lifts : (exit : Option ℕ) (s : State) → Lifts 0 s (emit_exit exit s)
unfolding emit_exit
emit_exit-Lifts none s = emit_extended_byte-Lifts 0 s s (lifts_none s) eop_exit
emit_exit-Lifts (some id) s =
    add_var_ref-Lifts 0 s _ (emit_extended_byte-Lifts 0 s s (lifts_none s) eop_exit_id) id

pub break_from-Lifts :
    (exit : Option ℕ) (l : Loop) (s0 s : State) → Lifts 0 s0 s → Lifts 0 s0 (break_from exit l s)
unfolding break_from
break_from-Lifts exit l s0 s a =
    let a1 = add_stack_ref-Lifts 0 s0 s a l.bottom_stack in
    let a2 = add_linked_label-Lifts 0 s0 _ a1 l.bottom_label in
    record {
      alive = a2.alive;
      level = a2.level;
      saved = a2.saved;
      loops = set_bottom-names exit _ _ ∙ a2.loops;
      peak = a2.peak;
      counts = λ c.
          let c2 = a2.counts c in
          retop-IsCounted _ _ refl refl (set_bottom-labels exit _ _ c2.tops) c2;
    }

module _ (exit : Option ℕ) (s : State) (h : has_loop exit (map names_of s.loops) ≡ true) where
  after_exit : has_loop exit (map names_of (emit_exit exit s).loops) ≡ true
  after_exit = subst (λ l. has_loop exit l ≡ true) (sym (emit_exit-Lifts exit s).loops) h

  pub generate_break-Lifts : Lifts 0 s (generate_break exit s)
  unfolding generate_break
  generate_break-Lifts =
      let (l, e, t) = find_loop_finds exit (emit_exit exit s).loops after_exit in
      rw (e, generate_break) (break_from-Lifts exit l s _ (emit_exit-Lifts exit s))

  pub generate_continue-Lifts : Lifts 0 s (generate_continue exit s)
  unfolding generate_continue add_stack_ref add_linked_fixup add_known_fixup emit_cell
  generate_continue-Lifts =
      let (l, e, t) = find_loop_finds exit (emit_exit exit s).loops after_exit in
      rw (e, generate_continue)
        (add_known_label-Lifts 0 s _
          (add_stack_ref-Lifts 0 s _ (emit_exit-Lifts exit s) l.top_stack) l.top_label
          (λ c. t c.tops))
