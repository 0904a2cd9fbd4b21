-- ===== src/Database.antt =====
-- db_private.h and db_objects.cc: the object table, and the attributes of objects.
pub mod Store
pub mod Examples
pub mod Location
pub mod Containment
pub mod Move
pub mod Nesting
pub mod Users
pub mod Parents
