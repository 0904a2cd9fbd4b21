-- ===== src/Interpreter.antt =====
-- execute.cc: `run`, on the code of code_gen.cc before it is laid out.
pub mod Operators
pub mod Machine
pub mod Step
pub mod Eval
pub mod Correct
pub mod Examples
