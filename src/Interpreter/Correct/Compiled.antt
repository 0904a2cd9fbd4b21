-- ===== src/Interpreter/Correct/Compiled.antt =====
-- What it is that code computes a meaning, and the code of operands and operators.
use stunt.Prelude.{
  ℕ, suc, ◌+◌, ◌≡◌, refl, ap, subst, ◌∙◌, false, List, [], ◌∷◌, ◌++◌, arith, length, length-append,
  get_elem?,
}
use mathlib.Core.List.{append_assoc}
use mathlib.Core.Option.{some}
use stunt.Value.{Var}
use stunt.Compiler.Opcode.{Opcode}
use stunt.Compiler.State.{Cell, op}
use stunt.Interpreter.Machine.{Frame, Machine, Outcome, running, is_pop}
use stunt.Interpreter.Step.{exec, step}
use stunt.Interpreter.Eval.{Result, and_then}
use stunt.Interpreter.Correct.Places.{
  Stands, Stands-left, Stands-right, Stands-head, Tables, Tables-left, Starts, Starts-append,
  Stands-Starts,
}
use stunt.Interpreter.Correct.Runs.{
  machine, Reaches, reaches_then, reaches_step, after, pops_at, settle, and_then-Reaches,
}

abbrev pub Meaning : Type 0
Meaning = Frame → List Var → Result

-- From the place `pc`, on any stack, the frame comes to the place `end` with the value, or to what
-- else the meaning is.
abbrev pub Computes : Frame → Meaning → ℕ → ℕ → Type 0
Computes fr M pc end =
    (rts env : List Var) (temp : Var)
    → Reaches fr (running (machine pc rts env temp))
        (after fr (pops_at fr end) end rts temp (M fr env))

-- The same where the code goes on with another opcode than `OP_POP`.
abbrev pub Pushes : Frame → Meaning → ℕ → ℕ → Type 0
Pushes fr M pc end =
    (rts env : List Var) (temp : Var)
    → Reaches fr (running (machine pc rts env temp)) (after fr false end rts temp (M fr env))

-- The cells and the literals grow, and the new cells compute the meaning in front of any code, in
-- every frame whose table has the literals.
pub record Compiled (M : Meaning) (bs : List Cell) (ls : List Var) (bs' : List Cell)
    (ls' : List Var) : Type 0 where
  pub cells : List Cell
  pub bytes : bs' ≡ bs ++ cells
  pub starts : Starts cells
  pub more : List Var
  pub table : ls' ≡ ls ++ more
  pub correct :
      (fr : Frame) (pc : ℕ)
      → length bs ≡ pc
      → Stands fr pc cells
      → Tables fr ls'
      → Computes fr M pc (pc + length cells)

pub ends_at :
    (fr : Frame) (M : Meaning) (pc end end' : ℕ)
    → end ≡ end'
    → Computes fr M pc end
    → Computes fr M pc end'
ends_at fr M pc end end' e c = subst (λ n. Computes fr M pc n) e c

pub settles : (fr : Frame) (M : Meaning) (pc end : ℕ) → Pushes fr M pc end → Computes fr M pc end
settles fr M pc end c rts env temp =
    reaches_then fr _ _ _ (c rts env temp) (settle fr end rts temp (M fr env))

pub settled :
    (fr : Frame) (M : Meaning) (pc end end' : ℕ)
    → end ≡ end'
    → Pushes fr M pc end
    → Computes fr M pc end'
settled fr M pc end end' e c = ends_at fr M pc end end' e (settles fr M pc end c)

pub pushes :
    (fr : Frame) (M : Meaning) (pc end : ℕ)
    → is_pop (get_elem? fr.code end) ≡ false
    → Computes fr M pc end
    → Pushes fr M pc end
pushes fr M pc end h c rts env temp =
    subst (λ b. Reaches fr (running (machine pc rts env temp)) (after fr b end rts temp (M fr env)))
      h (c rts env temp)

-- One opcode.
pub one :
    (fr : Frame) (o : Opcode) (cs : List Cell) (m : Machine) (out : Outcome)
    → Stands fr m.pc (op o ∷ cs)
    → exec fr o (suc m.pc) m ≡ out
    → Reaches fr (running m) out
one fr o cs m out h e =
    reaches_step fr m out (unfold step in rw (Stands-head fr m.pc (op o) cs h, step) e)

-- A meaning that goes on with the value of another.
abbrev pub bind : Meaning → (Frame → Var → List Var → Result) → Meaning
bind M g fr env = and_then fr (M fr env) (g fr)

-- The opcode of an operator with one operand.
pub unary :
    (M : Meaning) (g : Frame → Var → List Var → Result) (o : Opcode)
    → ((fr : Frame) (pc p : ℕ) (rts env : List Var) (temp v : Var)
        → exec fr o pc (machine p (v ∷ rts) env temp) ≡ after fr false pc rts temp (g fr v env))
    → is_pop (some (op o)) ≡ false
    → (bs : List Cell) (ls : List Var) (bs1 : List Cell) (ls1 : List Var) → Compiled M bs ls bs1 ls1
    → Compiled (bind M g) bs ls (bs1 ++ (op o ∷ [])) ls1
unary M g o ex np bs ls bs1 ls1 c = record {
  cells = c.cells ++ (op o ∷ []);
  bytes = ap (λ t. t ++ (op o ∷ [])) c.bytes ∙ append_assoc bs c.cells (op o ∷ []);
  starts = Starts-append c.cells _ c.starts;
  more = c.more;
  table = c.table;
  correct = λ fr pc k h t.
      let mid = pc + length c.cells in
      let h2 = Stands-right fr pc c.cells (op o ∷ []) h in
      let p1 =
        pushes fr M pc mid (Stands-Starts fr mid _ h2 np)
          (c.correct fr pc k (Stands-left fr pc c.cells _ h) t) in
      let e : suc mid ≡ pc + length (c.cells ++ (op o ∷ [])) =
        omega (arith, length-append c.cells (op o ∷ [])) in
      settled fr (bind M g) pc (suc mid) _ e (λ rts env temp.
        and_then-Reaches fr _ mid (suc mid) rts rts temp (M fr env) (g fr) false (p1 rts env temp)
          (λ v env'. one fr o [] _ _ h2 (ex fr (suc mid) mid rts env' temp v)));
}

-- One piece of code after another: where the second stands, and the end of both.
pub second-place :
    (bs xs bs1 : List Cell) (pc : ℕ) → bs1 ≡ bs ++ xs → length bs ≡ pc → length bs1 ≡ pc + length xs
second-place bs xs bs1 pc e k = omega (arith, ap (length {A = Cell}) e, length-append bs xs)

abbrev pub bind2 : Meaning → Meaning → (Frame → Var → Var → List Var → Result) → Meaning
bind2 M N g = bind M (λ fr v env. and_then fr (N fr env) (g fr v))

-- The opcode of an operator with two operands.
pub operator :
    (M N : Meaning) (g : Frame → Var → Var → List Var → Result) (o : Opcode)
    → ((fr : Frame) (pc p : ℕ) (rts env : List Var) (temp v w : Var)
        → exec fr o pc (machine p (w ∷ v ∷ rts) env temp)
          ≡ after fr false pc rts temp (g fr v w env))
    → is_pop (some (op o)) ≡ false
    → (bs : List Cell) (ls : List Var) (bs1 : List Cell) (ls1 : List Var) (bs2 : List Cell)
    → (ls2 : List Var) → Compiled M bs ls bs1 ls1
    → Compiled N bs1 ls1 bs2 ls2
    → Compiled (bind2 M N g) bs ls (bs2 ++ (op o ∷ [])) ls2
operator M N g o ex np bs ls bs1 ls1 bs2 ls2 c d = record {
  cells = c.cells ++ (d.cells ++ (op o ∷ []));
  bytes =
      ap (λ t. t ++ (op o ∷ [])) (d.bytes ∙ ap (λ t. t ++ d.cells) c.bytes)
      ∙ simp append_assoc refl;
  starts = Starts-append c.cells _ c.starts;
  more = c.more ++ d.more;
  table = d.table ∙ ap (λ t. t ++ d.more) c.table ∙ append_assoc ls c.more d.more;
  correct = λ fr pc k h t.
      let mid1 = pc + length c.cells in
      let mid2 = mid1 + length d.cells in
      let h2 = Stands-right fr pc c.cells _ h in
      let h3 = Stands-right fr mid1 d.cells (op o ∷ []) h2 in
      let t1 = Tables-left fr ls1 d.more (subst (Tables fr) d.table t) in
      let p1 =
        pushes fr M pc mid1 (Stands-Starts fr mid1 _ h2 (Starts-append d.cells _ d.starts))
          (c.correct fr pc k (Stands-left fr pc c.cells _ h) t1) in
      let p2 = pushes fr N mid1 mid2 (Stands-Starts fr mid2 _ h3 np) (
        d.correct fr mid1 (second-place bs c.cells bs1 pc c.bytes k)
          (Stands-left fr mid1 d.cells _ h2) t) in
      let e : suc mid2 ≡ pc + length (c.cells ++ (d.cells ++ (op o ∷ []))) = omega (
        arith,
        length-append c.cells (d.cells ++ (op o ∷ [])),
        length-append d.cells (op o ∷ []),
      ) in
      settled fr (bind2 M N g) pc (suc mid2) _ e (λ rts env temp.
        and_then-Reaches fr _ mid1 (suc mid2) rts rts temp (M fr env) _ false (p1 rts env temp)
          (λ v env'.
            and_then-Reaches fr _ mid2 (suc mid2) (v ∷ rts) rts temp (N fr env') (g fr v) false
              (p2 (v ∷ rts) env' temp)
              (λ w env''. one fr o [] _ _ h3 (ex fr (suc mid2) mid2 rts env'' temp v w))));
}
