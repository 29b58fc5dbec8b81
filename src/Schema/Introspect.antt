-- ===== src/Schema/Introspect.antt =====
-- src/schema/introspect.rs: the live tables, read from the database.
pub mod Identifiers
pub mod Rows
pub mod Actual
pub mod Tables
pub mod Reading
