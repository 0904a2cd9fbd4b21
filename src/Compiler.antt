-- ===== src/Compiler.antt =====
-- code_gen.cc and opcode.h: from the parsed program to its bytecode.
pub mod Syntax
pub mod Opcode
pub mod State
pub mod Emit
pub mod Assemble
pub mod Pieces
pub mod Generate
pub mod Scoped
pub mod Balance
pub mod Counts
pub mod Counted
pub mod Layout
pub mod Vectors
pub mod Places
pub mod Examples
