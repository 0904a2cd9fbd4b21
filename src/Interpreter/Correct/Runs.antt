-- ===== src/Interpreter/Correct/Runs.antt =====
-- Runs of the machine put one after the other.
use stunt.Prelude.{
  ℕ, zero, suc, ◌+◌, ◌≡◌, refl, sym, ap, ◌∙◌, Bool, true, false, List, ◌∷◌, arith, get_elem?,
  Bool-cases, inl, inr,
}
use mathlib.Core.Option.{Option, none, some}
use stunt.Value.{Var}
use stunt.Compiler.Opcode.{op_pop}
use stunt.Compiler.State.{Cell, op, eop, raw, ref}
use stunt.Interpreter.Machine.{Frame, Machine, Outcome, running, raised, aborted, stuck, is_pop}
use stunt.Interpreter.Step.{run_pop, exec, step, step_on, run}
use stunt.Interpreter.Eval.{Result, value, raises, aborts, outside, and_then}

abbrev pub machine : ℕ → List Var → List Var → Var → Machine
machine pc rts rt_env temp = record { pc = pc; rts = rts; rt_env = rt_env; temp = temp }

pop_only : (c : Option Cell) → is_pop c ≡ true → c ≡ some (op op_pop)
pop_only none h = cc
pop_only (some (op o)) h = ground arith
pop_only (some (eop e)) h = cc
pop_only (some (raw n)) h = cc
pop_only (some (ref f)) h = cc

module _ (fr : Frame) where
  run_add : (m n : ℕ) (o : Outcome) → run fr n (run fr m o) ≡ run fr (m + n) o
  unfolding run
  run_add zero n o = let e : n ≡ 0 + n = omega arith in ap (λ k. run fr k o) e
  run_add (suc m) n o =
      let e : suc (m + n) ≡ suc m + n = omega arith in
      run_add m n (step_on fr o) ∙ ap (λ k. run fr k o) e

  pub record Reaches (o o' : Outcome) : Type 0 where
    pub steps : ℕ
    pub reaches : run fr steps o ≡ o'

  pub reaches_refl : (o : Outcome) → Reaches o o
  reaches_refl o = record { steps = 0; reaches = unfold run in refl }

  pub reaches_then : (o o1 o2 : Outcome) → Reaches o o1 → Reaches o1 o2 → Reaches o o2
  reaches_then o o1 o2 a b = record {
    steps = a.steps + b.steps;
    reaches = sym (run_add a.steps b.steps o) ∙ ap (run fr b.steps) a.reaches ∙ b.reaches;
  }

  pub reaches_step : (m : Machine) (o : Outcome) → step fr m ≡ o → Reaches (running m) o
  reaches_step m o e = record { steps = 1; reaches = unfold run in e }

  -- The value of an expression is pushed, or popped again where `OP_POP` comes next.
  abbrev pub landing : Bool → ℕ → Var → List Var → List Var → Var → Machine
  landing true end v rts env temp = machine (suc end) rts env temp
  landing false end v rts env temp = machine end (v ∷ rts) env temp

  -- What the code of an expression leads to, by what the expression means.
  unfoldable pub after : Bool → ℕ → List Var → Var → Result → Outcome
  after pops end rts temp (value v env) = running (landing pops end v rts env temp)
  after pops end rts temp (raises e env) = raised e env
  after pops end rts temp aborts = aborted
  after pops end rts temp outside = stuck

  abbrev pub pops_at : ℕ → Bool
  pops_at end = is_pop (get_elem? fr.code end)

  settle_pop :
      (end : ℕ) (rts : List Var) (temp : Var) (r : Result)
      → get_elem? fr.code end ≡ some (op op_pop)
      → Reaches (after false end rts temp r) (after true end rts temp r)
  unfolding after
  settle_pop end rts temp (value v env) h =
      reaches_step _ _ (unfold step exec run_pop in rw (h, step) refl)
  settle_pop end rts temp (raises e env) h = reaches_refl _
  settle_pop end rts temp aborts h = reaches_refl _
  settle_pop end rts temp outside h = reaches_refl _

  pub settle :
      (end : ℕ) (rts : List Var) (temp : Var) (r : Result)
      → Reaches (after false end rts temp r) (after (pops_at end) end rts temp r)
  settle end rts temp r = elim (Bool-cases (pops_at end)) [
    | inl h ↦ rw h (settle_pop end rts temp r (pop_only (get_elem? fr.code end) h))
    | inr h ↦ rw h (reaches_refl _)
  ]

  pub and_then-Reaches :
      (o : Outcome) (mid end : ℕ) (rts0 rts : List Var) (temp : Var) (r : Result)
      (k : Var → List Var → Result) (pops : Bool)
      → Reaches o (after false mid rts0 temp r)
      → ((v : Var) (env : List Var)
          → Reaches (running (machine mid (v ∷ rts0) env temp)) (after pops end rts temp (k v env)))
      → Reaches o (after pops end rts temp (and_then fr r k))
  unfolding after and_then
  and_then-Reaches o mid end rts0 rts temp (value v env) k pops a b = reaches_then o _ _ a (b v env)
  and_then-Reaches o mid end rts0 rts temp (raises e env) k pops a b = a
  and_then-Reaches o mid end rts0 rts temp aborts k pops a b = a
  and_then-Reaches o mid end rts0 rts temp outside k pops a b = a
