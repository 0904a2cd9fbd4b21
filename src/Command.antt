-- ===== src/Command.antt =====
-- parse_cmd.cc, match.cc, db_verbs.cc: how a line that a player types becomes a command.
pub mod Words
pub mod Preposition
pub mod Objects
pub mod Parsed
pub mod Examples
