-- ===== src/Interpreter/Correct/Branches.antt =====
-- The code of `&&`, `||` and the conditional expression.
use stunt.Prelude.{
  ℕ, suc, ◌+◌, ◌≡◌, ap, subst, ◌∙◌, Bool, false, List, [], ◌∷◌, ◌++◌, arith, length, length-append,
  get_elem?, if◌then◌else◌, Bool-cases, inl, inr,
}
use mathlib.Core.List.{append_assoc}
use mathlib.Core.Option.{some}
use stunt.Value.{Var}
use stunt.Compiler.Opcode.{Opcode}
use stunt.Compiler.State.{Fixup, Cell, op, ref}
use stunt.Interpreter.Machine.{Frame, running, is_pop, operand}
use stunt.Interpreter.Step.{exec}
use stunt.Interpreter.Eval.{value}
use stunt.Interpreter.Correct.Places.{
  Stands, Stands-left, Stands-right, Stands-head, Stands-tail, Tables, Tables-left, Starts-append,
  Stands-Starts,
}
use stunt.Interpreter.Correct.Runs.{
  machine, Reaches, reaches_then, after, pops_at, settle, and_then-Reaches,
}
use stunt.Interpreter.Correct.Compiled.{Meaning, Compiled, ends_at, pushes, one, bind, second-place}

-- A jump where the test decides, or the code after it.
abbrev pub Jumps : Frame → Opcode → (Frame → Var → Bool) → (Var → List Var → List Var) → Type 0
Jumps fr o decides keep =
    (pc p : ℕ) (rts env : List Var) (temp v : Var)
    → exec fr o pc (machine p (v ∷ rts) env temp) ≡ (
        if decides fr v
        then running (machine (operand (get_elem? fr.code pc)) (keep v rts) env temp)
        else running (machine (suc pc) rts env temp))

-- The outcome of a jump to the place that its label tells.
pub jump_taken :
    (fr : Frame) (o : Opcode) (decides : Frame → Var → Bool) (keep : Var → List Var → List Var)
    → Jumps fr o decides keep
    → (mid : ℕ) (f : Fixup) (cs : List Cell) → Stands fr mid (op o ∷ ref f ∷ cs)
    → (rts env : List Var) (temp v : Var)
    → Reaches fr (running (machine mid (v ∷ rts) env temp)) (
        if decides fr v
        then running (machine f.value (keep v rts) env temp)
        else running (machine (suc (suc mid)) rts env temp))
jump_taken fr o decides keep ex mid f cs h rts env temp v =
    one fr o (ref f ∷ cs) (machine mid (v ∷ rts) env temp) _ h (
      ex (suc mid) mid rts env temp v
      ∙ ap
          (λ c.
            if decides fr v
            then running (machine (operand c) (keep v rts) env temp)
            else running (machine (suc (suc mid)) rts env temp))
          (Stands-head fr (suc mid) (ref f) cs (Stands-tail fr mid (op o) (ref f ∷ cs) h)))

-- The left value stays where it decides.
abbrev pub stays : Var → List Var → List Var
stays v rts = v ∷ rts

abbrev pub drops : Var → List Var → List Var
drops v rts = rts

abbrev pub short : Meaning → Meaning → (Frame → Var → Bool) → Meaning
short M N decides = bind M (λ fr v env. if decides fr v then value v env else N fr env)

pub short_circuits :
    (M N : Meaning) (decides : Frame → Var → Bool) (o : Opcode)
    → ((fr : Frame) → Jumps fr o decides stays)
    → is_pop (some (op o)) ≡ false
    → (bs : List Cell) (ls : List Var) (bs1 : List Cell) (ls1 : List Var) (f0 f : Fixup)
      (bs2 : List Cell)
    → (ls2 : List Var) (bs3 : List Cell) → Compiled M bs ls bs1 ls1
    → (d : Compiled N (bs1 ++ (op o ∷ ref f0 ∷ [])) ls1 bs2 ls2)
    → bs3 ≡ bs1 ++ (op o ∷ ref f ∷ d.cells)
    → f.value ≡ length bs2
    → Compiled (short M N decides) bs ls bs3 ls2
short_circuits M N decides o ex np bs ls bs1 ls1 f0 f bs2 ls2 bs3 c d e3 ef = record {
  cells = c.cells ++ (op o ∷ ref f ∷ d.cells);
  bytes = e3 ∙ ap (λ t. t ++ (op o ∷ ref f ∷ d.cells)) c.bytes ∙ append_assoc bs c.cells _;
  starts = Starts-append c.cells _ c.starts;
  more = c.more ++ d.more;
  table = d.table ∙ ap (λ t. t ++ d.more) c.table ∙ append_assoc ls c.more d.more;
  correct = λ fr pc k h t.
      let mid = pc + length c.cells in
      let end = pc + length (c.cells ++ (op o ∷ ref f ∷ d.cells)) in
      let h2 = Stands-right fr pc c.cells _ h in
      let h3 = Stands-tail fr (suc mid) (ref f) _ (Stands-tail fr mid (op o) _ h2) in
      let t1 = Tables-left fr ls1 d.more (subst (Tables fr) d.table t) in
      let p1 =
        pushes fr M pc mid (Stands-Starts fr mid _ h2 np)
          (c.correct fr pc k (Stands-left fr pc c.cells _ h) t1) in
      let k1 = second-place bs c.cells bs1 pc c.bytes k in
      let k2 : length (bs1 ++ (op o ∷ ref f0 ∷ [])) ≡ suc (suc mid) =
        omega (arith, length-append bs1 (op o ∷ ref f0 ∷ []), k1) in
      let e : suc (suc mid) + length d.cells ≡ end =
        omega (arith, length-append c.cells (op o ∷ ref f ∷ d.cells)) in
      let ev : f.value ≡ end = omega (
        arith,
        ef,
        ap (length {A = Cell}) d.bytes,
        length-append (bs1 ++ (op o ∷ ref f0 ∷ [])) d.cells,
        k2,
        e,
      ) in
      let p2 = ends_at fr N (suc (suc mid)) _ end e (d.correct fr (suc (suc mid)) k2 h3 t) in
      λ rts env temp.
        and_then-Reaches fr _ mid end rts rts temp (M fr env) _ (pops_at fr end) (p1 rts env temp)
          (λ v env'.
            let j = jump_taken fr o decides stays (ex fr) mid f d.cells h2 rts env' temp v in
            elim (Bool-cases (decides fr v)) [
              | inl b ↦ rw b (
                  reaches_then fr _ _ _ (rw (b, ev) at j)
                    (unfold after in settle fr end rts temp (value v env')))
              | inr b ↦ rw b (reaches_then fr _ _ _ (rw b at j) (p2 rts env' temp))
            ]);
}
