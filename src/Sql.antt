-- ===== src/Sql.antt =====
-- src/sql: the text of the statements.
pub mod Render
pub mod Ddl
pub mod Mutation
pub mod Select
pub mod Placeholders
