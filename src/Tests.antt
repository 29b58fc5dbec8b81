-- ===== src/Tests.antt =====
-- The theorems at concrete inputs, and runs of the definitions on inputs of the repository's tests.
mod Data
mod Schema
mod Query
mod Connection
mod Transaction
mod Pool
mod Desired
mod Record
mod Association
mod Params
mod Apply
mod History
mod Introspect
mod Iteration
