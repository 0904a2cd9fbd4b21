-- ===== src/Interpreter/Correct/Choice.antt =====
-- The code of the conditional expression.
use stunt.Prelude.{
  ℕ, suc, ◌+◌, ◌≡◌, refl, ap, subst, ◌∙◌, Bool, false, not, List, [], ◌∷◌, ◌++◌, arith, length,
  length-append, if◌then◌else◌, Bool-cases, inl, inr,
}
use mathlib.Core.List.{append_assoc}
use stunt.Value.{Var, is_true}
use stunt.Compiler.Opcode.{op_if_ques, op_jump}
use stunt.Compiler.State.{Fixup, Cell, op, ref}
use stunt.Interpreter.Machine.{Frame, running, operand, do_test}
use stunt.Interpreter.Step.{exec}
use stunt.Interpreter.Eval.{Result, value, raises, aborts, outside}
use stunt.Interpreter.Correct.Places.{
  Stands, Stands-left, Stands-right, Stands-head, Stands-tail, Tables, Tables-left, Starts-append,
  Stands-Starts,
}
use stunt.Interpreter.Correct.Runs.{
  machine, Reaches, reaches_refl, reaches_then, after, pops_at, settle, and_then-Reaches,
}
use stunt.Interpreter.Correct.Compiled.{
  Meaning, Computes, Compiled, ends_at, pushes, one, bind, second-place,
}
use stunt.Interpreter.Correct.Branches.{Jumps, jump_taken, drops}

abbrev pub choice : Meaning → Meaning → Meaning → Meaning
choice M N L = bind M (λ fr v env. if is_true fr.floats v then N fr env else L fr env)

abbrev is_false : Frame → Var → Bool
is_false fr v = not (is_true fr.floats v)

if_ques-Jumps : (fr : Frame) → Jumps fr op_if_ques is_false drops
unfolding exec do_test
if_ques-Jumps fr pc p rts env temp v = elim (Bool-cases (is_true fr.floats v)) [
  | inl h ↦ rw h refl
  | inr h ↦ rw h refl
]

-- `OP_JUMP` after the consequent, to the end.
jumped :
    (fr : Frame) (mid end : ℕ) (g : Fixup) (cs : List Cell) (rts : List Var) (temp : Var)
    (r : Result)
    → g.value ≡ end
    → Stands fr mid (op op_jump ∷ ref g ∷ cs)
    → Reaches fr (after fr false mid rts temp r) (after fr false end rts temp r)
unfolding after
jumped fr mid end g cs rts temp (value v env) e h =
    one fr op_jump (ref g ∷ cs) (machine mid (v ∷ rts) env temp) _ h (
      unfold exec in
      ap (λ n. running (machine n (v ∷ rts) env temp))
        (ap operand (Stands-head fr (suc mid) (ref g) cs (Stands-tail fr mid (op op_jump) _ h))
          ∙ e))
jumped fr mid end g cs rts temp (raises x env) e h = reaches_refl fr _
jumped fr mid end g cs rts temp aborts e h = reaches_refl fr _
jumped fr mid end g cs rts temp outside e h = reaches_refl fr _

jumps_to :
    (fr : Frame) (N : Meaning) (pc mid end : ℕ) (g : Fixup) (cs : List Cell)
    → g.value ≡ end
    → Stands fr mid (op op_jump ∷ ref g ∷ cs)
    → Computes fr N pc mid
    → Computes fr N pc end
jumps_to fr N pc mid end g cs e h c rts env temp =
    reaches_then fr _ _ _ (pushes fr N pc mid (Stands-Starts fr mid _ h refl) c rts env temp) (
      reaches_then fr _ _ _ (jumped fr mid end g cs rts temp (N fr env) e h)
        (settle fr end rts temp (N fr env)))

module _ (M N L : Meaning) (f0 f g0 g : Fixup) where
  pub chooses :
      (bs : List Cell) (ls : List Var) (bs1 : List Cell) (ls1 : List Var) (bs2 : List Cell)
      (ls2 : List Var)
      → (bs3 bs4 : List Cell) (ls3 : List Var) (bs5 : List Cell) → Compiled M bs ls bs1 ls1
      → (d : Compiled N (bs1 ++ (op op_if_ques ∷ ref f0 ∷ [])) ls1 bs2 ls2)
      → length bs3 ≡ length bs2 + 2
      → (b : Compiled L bs3 ls2 bs4 ls3)
      → bs5 ≡ bs1 ++ (op op_if_ques ∷ ref f ∷ (d.cells ++ (op op_jump ∷ ref g ∷ b.cells)))
      → f.value ≡ length bs2 + 2
      → g.value ≡ length bs4
      → Compiled (choice M N L) bs ls bs5 ls3
  chooses bs ls bs1 ls1 bs2 ls2 bs3 bs4 ls3 bs5 c d e3 b e5 ef eg =
      let tail = op op_jump ∷ ref g ∷ b.cells in
      let all = op op_if_ques ∷ ref f ∷ (d.cells ++ tail) in
      record {
        cells = c.cells ++ all;
        bytes = e5 ∙ ap (λ t. t ++ all) c.bytes ∙ append_assoc bs c.cells all;
        starts = Starts-append c.cells _ c.starts;
        more = (c.more ++ d.more) ++ b.more;
        table =
            b.table
            ∙ ap (λ t. t ++ b.more)
                (d.table ∙ ap (λ t. t ++ d.more) c.table ∙ append_assoc ls c.more d.more)
            ∙ append_assoc ls (c.more ++ d.more) b.more;
        correct = λ fr pc k h t.
            let mid = pc + length c.cells in
            let end = pc + length (c.cells ++ all) in
            let h2 = Stands-right fr pc c.cells _ h in
            let h3 = Stands-tail fr (suc mid) (ref f) _ (Stands-tail fr mid (op op_if_ques) _ h2) in
            let h4 = Stands-right fr (suc (suc mid)) d.cells _ h3 in
            let at = suc (suc mid) + length d.cells in
            let h5 = Stands-tail fr (suc at) (ref g) _ (Stands-tail fr at (op op_jump) _ h4) in
            let t2 = Tables-left fr ls2 b.more (subst (Tables fr) b.table t) in
            let t1 = Tables-left fr ls1 d.more (subst (Tables fr) d.table t2) in
            let p1 =
              pushes fr M pc mid (Stands-Starts fr mid _ h2 refl)
                (c.correct fr pc k (Stands-left fr pc c.cells _ h) t1) in
            let k1 = second-place bs c.cells bs1 pc c.bytes k in
            let k2 : length (bs1 ++ (op op_if_ques ∷ ref f0 ∷ [])) ≡ suc (suc mid) =
              omega (arith, length-append bs1 (op op_if_ques ∷ ref f0 ∷ []), k1) in
            let k3 : length bs2 ≡ at = second-place _ d.cells bs2 (suc (suc mid)) d.bytes k2 in
            let k4 : length bs3 ≡ suc (suc at) = omega (arith, e3, k3) in
            let e : suc (suc at) + length b.cells ≡ end =
              omega (arith, length-append c.cells all, length-append d.cells tail) in
            let ev : g.value ≡ end =
              omega (arith, eg, second-place bs3 b.cells bs4 (suc (suc at)) b.bytes k4, e) in
            let ew : f.value ≡ suc (suc at) = omega (arith, ef, k3) in
            let p2 =
              jumps_to fr N (suc (suc mid)) at end g b.cells ev h4 (
                d.correct fr (suc (suc mid)) k2 (Stands-left fr (suc (suc mid)) d.cells _ h3) t2) in
            let p3 = ends_at fr L (suc (suc at)) _ end e (b.correct fr (suc (suc at)) k4 h5 t) in
            λ rts env temp.
              and_then-Reaches fr _ mid end rts rts temp (M fr env) _ (pops_at fr end)
                (p1 rts env temp)
                (λ v env'.
                  let j =
                    jump_taken fr op_if_ques is_false drops (if_ques-Jumps fr) mid f _ h2 rts env'
                      temp v in
                  elim (Bool-cases (is_true fr.floats v)) [
                    | inl q ↦ rw q (reaches_then fr _ _ _ (rw q at j) (p2 rts env' temp))
                    | inr q ↦ rw q (reaches_then fr _ _ _ (rw (q, ew) at j) (p3 rts env' temp))
                  ]);
      }
