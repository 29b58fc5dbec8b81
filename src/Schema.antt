-- ===== src/Schema.antt =====
-- src/schema: the desired schema, its normal form, the stored text that it round-trips through, and
-- the plan that brings a live database to it.
pub mod Types
pub mod Names
pub mod Normalize
pub mod Canonical
pub mod Affinity
pub mod Json
pub mod Fingerprint
pub mod Plan
pub mod Diff
pub mod Build
pub mod Introspect
pub mod History
pub mod Scope
pub mod Desired
pub mod Apply
