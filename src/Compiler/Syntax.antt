-- ===== src/Compiler/Syntax.antt =====
-- ast.h: the parsed program that code_gen.cc takes.
use stunt.Prelude.{ℕ, Option}
use stunt.Value.{Var}

-- `Expr_Kind` of the operators whose opcode is one byte, and of those whose opcode is extended.
pub data Binary : Type 0 where
  expr_plus expr_minus expr_times expr_divide expr_mod : Binary
  expr_eq expr_ne expr_lt expr_le expr_gt expr_ge expr_in : Binary

pub data Extended : Type 0 where
  expr_exp expr_bitor expr_bitand expr_bitxor expr_bitshl expr_bitshr : Extended

-- `struct Expr`, by its kinds; a NULL pointer to an expression is `absent`. The left sides that
-- the parser lets an assignment have are a type of their own. The list of codes of a handler is
-- `no_args` for `ANY`.
mutual
  pub data Expr : Type 0 where
    expr_var : Var → Expr
    expr_id : ℕ → Expr
    expr_prop : Expr → Expr → Expr
    expr_verb : Expr → Expr → ArgList → Expr
    expr_index : Expr → Expr → Expr
    expr_range : Expr → Expr → Expr → Expr
    expr_asgn : Lvalue → Expr → Expr
    expr_scatter : Scatter → Expr → Expr
    expr_call : ℕ → ArgList → Expr
    expr_binary : Binary → Expr → Expr → Expr
    expr_extended : Extended → Expr → Expr → Expr
    expr_negate expr_not expr_complement : Expr → Expr
    expr_and expr_or : Expr → Expr → Expr
    expr_list : ArgList → Expr
    expr_cond : Expr → Expr → Expr → Expr
    expr_catch : Expr → ArgList → OptExpr → Expr
    expr_map : MapList → Expr
    expr_first expr_last : Expr

  pub data OptExpr : Type 0 where
    absent : OptExpr
    present : Expr → OptExpr

  -- `struct Arg_List`, `ARG_NORMAL` and `ARG_SPLICE`.
  pub data ArgList : Type 0 where
    no_args : ArgList
    arg_normal arg_splice : Expr → ArgList → ArgList

  -- `struct Map_List`: the key, then the value.
  pub data MapList : Type 0 where
    no_mappings : MapList
    mapping : Expr → Expr → MapList → MapList

  -- `struct Scatter`, by its kinds, with the variable.
  pub data Scatter : Type 0 where
    scat_end : Scatter
    scat_required scat_rest : ℕ → Scatter → Scatter
    scat_optional : ℕ → OptExpr → Scatter → Scatter

  pub data Lvalue : Type 0 where
    lvalue_id : ℕ → Lvalue
    lvalue_prop : Expr → Expr → Lvalue
    lvalue_index : Lvalue → Expr → Lvalue
    lvalue_range : Lvalue → Expr → Expr → Lvalue

-- `struct Stmt`: each statement ends with the statements after it; an id of -1 is `none`.
mutual
  pub data Stmt : Type 0 where
    stmt_end : Stmt
    stmt_cond : CondArm → Stmt → Stmt → Stmt
    stmt_list : ℕ → Option ℕ → Expr → Stmt → Stmt → Stmt
    stmt_range : ℕ → Expr → Expr → Stmt → Stmt → Stmt
    stmt_while : Option ℕ → Expr → Stmt → Stmt → Stmt
    stmt_fork : Option ℕ → Expr → Stmt → Stmt → Stmt
    stmt_expr : Expr → Stmt → Stmt
    stmt_return : OptExpr → Stmt → Stmt
    stmt_try_except : Stmt → ExceptArm → Stmt → Stmt
    stmt_try_finally : Stmt → Stmt → Stmt → Stmt
    stmt_break stmt_continue : Option ℕ → Stmt → Stmt

  -- `struct Cond_Arm`: the condition and the body.
  pub data CondArm : Type 0 where
    no_arms : CondArm
    cond_arm : Expr → Stmt → CondArm → CondArm

  -- `struct Except_Arm`: the variable, the codes and the body.
  pub data ExceptArm : Type 0 where
    no_excepts : ExceptArm
    except_arm : Option ℕ → ArgList → Stmt → ExceptArm → ExceptArm
