-- ===== src/Compiler/Vectors.antt =====
-- The vector of a program: its size, the places of its labels, and its references read back.
use stunt.Prelude.{
  ℕ, zero, suc, ◌+◌, ◌-◌, ◌*◌, ◌≤◌, ◌<◌, ◌≡◌, refl, ap, List, [], ◌∷◌, ◌++◌, arith, length, map,
  leb, ◌==◌, Bool-cases, inl, inr,
}
use mathlib.Core.Option.{Option, none, some}
use stunt.Value.{Floats}
use stunt.Compiler.Syntax.{Stmt}
use stunt.Compiler.Scoped.{IsProgram}
use stunt.Compiler.State.{fixup_stack, GState, State, init_state}
use stunt.Compiler.Opcode.{op_done}
use stunt.Compiler.Emit.{panic, capture_label}
use stunt.Compiler.Counted.{IsCounted, same-IsCounted}
use stunt.Compiler.Counts.{count_refs}
use stunt.Compiler.Assemble.{ref_size, Sizes, sizes, fixup_value, value_bytes, lay_out, assemble}
use stunt.Compiler.Layout.{AreSizes, length-assemble, place}
use stunt.Compiler.Generate.Statements.{check_stack, finish_code, generate_stmt, stmt_to_code}
use stunt.Compiler.Balance.{names_of, emit_byte-Lifts}
use stunt.Compiler.Balance.Stmts.{generate_stmt-Lifts}

pub init_state-IsCounted : (g : GState) → IsCounted (init_state g)
unfolding init_state count_refs
init_state-IsCounted g = record {
  literals = refl;
  forks = refl;
  labels = refl;
  var_refs = refl;
  stacks = refl;
  tops = tt;
}

check_stack-IsCounted :
    (cur : ℕ) (saved : Option ℕ) (s : State) → IsCounted s → IsCounted (check_stack cur saved s)
unfolding check_stack panic
check_stack-IsCounted cur none s c = elim (Bool-cases (cur == 0)) [
  | inl h ↦ rw h c
  | inr h ↦ rw h (same-IsCounted s _ refl refl refl c)
]
check_stack-IsCounted cur (some saved) s c = same-IsCounted s _ refl refl refl c

-- Bytes read as a number, the most significant first.
unfoldable pub read_bytes : ℕ → ℕ → List ℕ → ℕ × List ℕ
read_bytes zero value bv = (value, bv)
read_bytes (suc nb) value [] = (value, [])
read_bytes (suc nb) value (b ∷ bv) = read_bytes nb (value * 256 + b) bv

module _ (v : ℕ) (rest : List ℕ) where
  one_byte : v < 256 → read_bytes 1 0 (value_bytes 1 v ++ rest) ≡ (v, rest)
  unfolding read_bytes value_bytes
  one_byte h = ap (λ (n : ℕ). (n, rest)) (omega arith)

  two_bytes : v < 65536 → read_bytes 2 0 (value_bytes 2 v ++ rest) ≡ (v, rest)
  unfolding read_bytes value_bytes
  two_bytes h = ap (λ (n : ℕ). (n, rest)) (omega arith)

  four_bytes : v < 4294967296 → read_bytes 4 0 (value_bytes 4 v ++ rest) ≡ (v, rest)
  unfolding read_bytes value_bytes
  four_bytes h = ap (λ (n : ℕ). (n, rest)) (omega arith)

  truncated : read_bytes 1 0 (value_bytes 1 256 ++ rest) ≡ (0, rest)
  unfolding read_bytes value_bytes
  truncated = refl

-- A reference that is less than the number that its size was chosen for is read back, in front of
-- any bytes, if that number is at most 2 ^ 32; the reference 256 in the size chosen for the
-- number 256 is read back as 0.
pub read_bytes-ref_size :
    (m v : ℕ) (rest : List ℕ)
    → v < m
    → m ≤ 4294967296
    → (read_bytes (ref_size m) 0 (value_bytes (ref_size m) v ++ rest) ≡ (v, rest))
      × (read_bytes (ref_size 256) 0 (value_bytes (ref_size 256) 256 ++ rest) ≡ (0, rest))
unfolding ref_size
read_bytes-ref_size m v rest h k = elim (Bool-cases (leb m 256)) [
  | inl a ↦ (rw a (one_byte v rest (ground (arith, a))), truncated v rest)
  | inr a ↦ elim (Bool-cases (leb m 65536)) [
    | inl b ↦ (rw (a, b) (two_bytes v rest (ground (arith, b))), truncated v rest)
    | inr b ↦ (rw (a, b) (four_bytes v rest (omega arith)), truncated v rest)
  ]
]

module _ (f : Floats) where
  stmt_to_code-IsCounted :
      (stmt : Stmt) (g : GState) → IsProgram [] stmt → IsCounted (stmt_to_code f stmt g)
  unfolding stmt_to_code finish_code init_state
  stmt_to_code-IsCounted stmt g p =
      let a = generate_stmt-Lifts f stmt (init_state g) p in
      check_stack-IsCounted _ _ _
        ((emit_byte-Lifts 0 (init_state g) _ a op_done).counts (init_state-IsCounted g))

  -- The bytes that are written are as many as the vector has room for, and `numbytes_stack - 1` more
  -- for each reference to the stack: none more when the code needs at most 256 places of the stack.
  pub stmt_to_code-length :
      (stmt : Stmt) (g : GState)
      → IsProgram [] stmt
      → length (assemble (stmt_to_code f stmt g)).vector
        ≡ (assemble (stmt_to_code f stmt g)).size
          + (ref_size (stmt_to_code f stmt g).max_stack - 1)
            * count_refs fixup_stack (stmt_to_code f stmt g).bytes
  stmt_to_code-length stmt g p =
      unfold assemble sizes in
      length-assemble (stmt_to_code f stmt g) (stmt_to_code-IsCounted stmt g p)

  -- A label for the end of the code of a statement is, in the laid-out code with references of any
  -- sizes, the place where the next byte goes, where references to the stack take one byte.
  pub generate_stmt-place :
      (stmt : Stmt) (s : State) (z : Sizes)
      → IsProgram (map names_of s.loops) stmt
      → IsCounted s
      → AreSizes z
      → z.stack ≡ 1
      → fixup_value z (capture_label (generate_stmt f stmt s))
        ≡ length (lay_out z (generate_stmt f stmt s).bytes)
  generate_stmt-place stmt s z p c h e =
      let c1 = (generate_stmt-Lifts f stmt s p).counts c in
      omega (
        arith,
        place (generate_stmt f stmt s) c1 z h,
        ap (λ (t : ℕ). (t - 1) * count_refs fixup_stack (generate_stmt f stmt s).bytes) e,
      )
