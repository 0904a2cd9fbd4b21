-- ===== src/Compiler/Scoped.antt =====
-- What the parser makes sure of in a program, as far as code_gen.cc relies on it.
use stunt.Prelude.{ℕ, Bool, true, false, ◌≡◌, List, [], ◌∷◌, ◌||◌}
use mathlib.Core.Option.{Option, none, some}
use stunt.Value
use stunt.Value.{Var}
use stunt.Compiler.Syntax.{
  Expr, expr_var, expr_id, expr_prop, expr_verb, expr_index, expr_range, expr_asgn, expr_scatter,
  expr_call, expr_binary, expr_extended, expr_negate, expr_not, expr_complement, expr_and, expr_or,
  expr_list, expr_cond, expr_catch, expr_map, expr_first, expr_last, OptExpr, absent, present,
  ArgList, no_args, arg_normal, arg_splice, MapList, no_mappings, mapping, Scatter, scat_end,
  scat_required, scat_rest, scat_optional, Lvalue, lvalue_id, lvalue_prop, lvalue_index,
  lvalue_range, Stmt, stmt_end, stmt_cond, stmt_list, stmt_range, stmt_while, stmt_fork, stmt_expr,
  stmt_return, stmt_try_except, stmt_try_finally, stmt_break, stmt_continue, CondArm, no_arms,
  cond_arm, ExceptArm, no_excepts, except_arm,
}
use stunt.Compiler.Generate.Statements.{is_id}

-- The types of the constants of the language, and `none`, which a loop over a list starts with.
abbrev pub IsLiteral : Var → Type 0
IsLiteral (Value.int n) = Unit
IsLiteral (Value.obj n) = Unit
IsLiteral (Value.str s) = Unit
IsLiteral (Value.err e) = Unit
IsLiteral (Value.float d) = Unit
IsLiteral Value.none = Unit
IsLiteral v = ⊥

-- Only the outermost part of an assigned place is a range.
abbrev pub IsBase : Lvalue → Type 0
IsBase (lvalue_id id) = Unit
IsBase (lvalue_prop obj name) = Unit
IsBase (lvalue_index base at) = Unit
IsBase (lvalue_range base from to) = ⊥

-- `^` and `$` stand in an index or a range only; the test tells whether the expression does.
unfoldable mutual
  pub IsScoped : Bool → Expr → Type 0
  IsScoped b (expr_var v) = IsLiteral v
  IsScoped b (expr_id id) = Unit
  IsScoped b (expr_prop l r) = IsScoped b l × IsScoped b r
  IsScoped b (expr_verb obj verb args) = IsScoped b obj × IsScoped b verb × AreScoped b args
  IsScoped b (expr_index l r) = IsScoped b l × IsScoped true r
  IsScoped b (expr_range base from to) = IsScoped b base × IsScoped true from × IsScoped true to
  IsScoped b (expr_asgn e value) = IsPlace b e × IsScoped b value
  IsScoped b (expr_scatter sc value) = IsScatter b sc × IsScoped b value
  IsScoped b (expr_call func args) = AreScoped b args
  IsScoped b (expr_binary k l r) = IsScoped b l × IsScoped b r
  IsScoped b (expr_extended k l r) = IsScoped b l × IsScoped b r
  IsScoped b (expr_negate e) = IsScoped b e
  IsScoped b (expr_not e) = IsScoped b e
  IsScoped b (expr_complement e) = IsScoped b e
  IsScoped b (expr_and l r) = IsScoped b l × IsScoped b r
  IsScoped b (expr_or l r) = IsScoped b l × IsScoped b r
  IsScoped b (expr_list args) = AreScoped b args
  IsScoped b (expr_cond c t e) = IsScoped b c × IsScoped b t × IsScoped b e
  IsScoped b (expr_catch body codes except) =
      IsScoped b body × AreScoped b codes × IsScopedOpt b except
  IsScoped b (expr_map mappings) = IsScopedMap b mappings
  IsScoped b expr_first = b ≡ true
  IsScoped b expr_last = b ≡ true

  pub IsScopedOpt : Bool → OptExpr → Type 0
  IsScopedOpt b absent = Unit
  IsScopedOpt b (present e) = IsScoped b e

  pub AreScoped : Bool → ArgList → Type 0
  AreScoped b no_args = Unit
  AreScoped b (arg_normal e args) = IsScoped b e × AreScoped b args
  AreScoped b (arg_splice e args) = IsScoped b e × AreScoped b args

  pub IsScopedMap : Bool → MapList → Type 0
  IsScopedMap b no_mappings = Unit
  IsScopedMap b (mapping key value mappings) =
      IsScoped b key × IsScoped b value × IsScopedMap b mappings

  pub IsScatter : Bool → Scatter → Type 0
  IsScatter b scat_end = Unit
  IsScatter b (scat_required id sc) = IsScatter b sc
  IsScatter b (scat_rest id sc) = IsScatter b sc
  IsScatter b (scat_optional id e sc) = IsScopedOpt b e × IsScatter b sc

  pub IsPlace : Bool → Lvalue → Type 0
  IsPlace b (lvalue_id id) = Unit
  IsPlace b (lvalue_prop obj name) = IsScoped b obj × IsScoped b name
  IsPlace b (lvalue_index base at) = IsBase base × IsPlace b base × IsScoped true at
  IsPlace b (lvalue_range base from to) =
      IsBase base × IsPlace b base × IsScoped true from × IsScoped true to

-- The names of a loop.
abbrev pub Names : Type 0
Names = Option ℕ × Option ℕ

-- Whether a `break` or a `continue` finds its loop.
unfoldable pub has_loop : Option ℕ → List Names → Bool
has_loop exit [] = false
has_loop none (loop ∷ loops) = true
has_loop (some id) ((name, index) ∷ loops) =
    is_id id name || is_id id index || has_loop (some id) loops

-- `break` and `continue` stand in their loops; a forked body is code of its own.
unfoldable mutual
  pub IsProgram : List Names → Stmt → Type 0
  IsProgram loops stmt_end = Unit
  IsProgram loops (stmt_cond arms otherwise next) =
      AreArms loops arms × IsProgram loops otherwise × IsProgram loops next
  IsProgram loops (stmt_list id index e body next) =
      IsScoped false e × IsProgram ((some id, index) ∷ loops) body × IsProgram loops next
  IsProgram loops (stmt_range id from to body next) =
      IsScoped false from
      × IsScoped false to
      × IsProgram ((some id, none) ∷ loops) body
      × IsProgram loops next
  IsProgram loops (stmt_while id c body next) =
      IsScoped false c × IsProgram ((id, none) ∷ loops) body × IsProgram loops next
  IsProgram loops (stmt_fork id time body next) =
      IsScoped false time × IsProgram [] body × IsProgram loops next
  IsProgram loops (stmt_expr e next) = IsScoped false e × IsProgram loops next
  IsProgram loops (stmt_return e next) = IsScopedOpt false e × IsProgram loops next
  IsProgram loops (stmt_try_except body excepts next) =
      IsProgram loops body × AreExcepts loops excepts × IsProgram loops next
  IsProgram loops (stmt_try_finally body handler next) =
      IsProgram loops body × IsProgram loops handler × IsProgram loops next
  IsProgram loops (stmt_break exit next) = (has_loop exit loops ≡ true) × IsProgram loops next
  IsProgram loops (stmt_continue exit next) = (has_loop exit loops ≡ true) × IsProgram loops next

  pub AreArms : List Names → CondArm → Type 0
  AreArms loops no_arms = Unit
  AreArms loops (cond_arm c body arms) =
      IsScoped false c × IsProgram loops body × AreArms loops arms

  pub AreExcepts : List Names → ExceptArm → Type 0
  AreExcepts loops no_excepts = Unit
  AreExcepts loops (except_arm id codes body arms) =
      AreScoped false codes × IsProgram loops body × AreExcepts loops arms
