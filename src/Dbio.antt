-- ===== src/Dbio.antt =====
-- db_io.cc: how values stand in the file of the database.
pub mod Lines
pub mod Numbers
pub mod Strings
pub mod Vars
pub mod Roundtrip
pub mod Examples
