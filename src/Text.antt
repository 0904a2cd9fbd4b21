-- ===== src/Text.antt =====
-- utils.cc: byte strings. A string is the list of its bytes, without the terminating NUL.
pub mod Case
pub mod Codes
pub mod Examples
pub mod Pieces
pub mod Ranged
pub mod Strtol
pub mod Search
pub mod Substitute
pub mod Verb
pub mod Binary
