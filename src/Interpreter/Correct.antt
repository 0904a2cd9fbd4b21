-- ===== src/Interpreter/Correct.antt =====
-- The code of an expression, run by `run`, does what the expression means.
pub mod Places
pub mod Runs
pub mod Answers
pub mod Compiled
pub mod Branches
pub mod Choice
pub mod Slots
pub mod Stores
pub mod Leaves
pub mod Operands
pub mod Exprs
pub mod Return
