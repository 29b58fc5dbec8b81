-- ===== src/Query.antt =====
-- src/model/comparison.rs and src/model/query: predicates, query plans and the ways to fetch.
pub mod Run
pub mod Comparison
pub mod Expression
pub mod Clauses
pub mod Plan
pub mod Iteration
