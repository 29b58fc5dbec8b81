-- ===== src/Model.antt =====
-- src/model: the static description of a model that the SQL generators and the queries read.
pub mod Types
pub mod Params
pub mod Association
pub mod Keys
pub mod Record
pub mod Validation
pub mod Builder
