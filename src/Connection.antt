-- ===== src/Connection.antt =====
-- src/connection.rs.
pub mod Log
pub mod Value
pub mod Act
pub mod Access
pub mod Pool
pub mod Transaction
