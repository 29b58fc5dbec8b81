-- ===== src/Lib.antt =====
-- A verification library for seekwel, an active-record library over SQLite with a macro that
-- derives a model from a struct and a planner that brings a database to the models' schema.
--
-- Parts, and how they interact. A model's metadata (src/model/mod.rs) gives the statements of
-- src/sql and the desired schema of src/schema. A query (src/model/query.rs and below) gathers
-- comparisons (src/model/comparison.rs) in an expression, renders it with the values to bind, and
-- runs it by src/connection.rs, which logs it. The planner reads the live tables, compares them with
-- the desired ones (src/schema/diff.rs) and lists operations and blockers (src/schema/plan.rs); the
-- schema that was last applied is stored as text (src/schema/types.rs).
--
-- Files, and what they model.
--   Prelude      native numbers, lists, texts as lists of character codes, stable sorting, decimal and
--                hexadecimal digits, ordered maps. `str` comparison is by code points, which is the
--                order of the UTF-8 bytes; `BTreeMap` is the list of its entries in key order.
--   Errors       src/error.rs: `Error` and `Result`, `?` as `>>=`. The type `S` is `rusqlite::Error`.
--   Schema       src/schema: Types, Normalize and Canonical are `SchemaDef` of types.rs with
--                `normalized`, `canonical_string` and `from_canonical`; Affinity and Json are
--                `SqlAffinity` and `json_escape` there; Plan is plan.rs with its JSON in Plan/Render;
--                Diff is diff.rs. The loops of `diff` that push on two vectors are functions that
--                return what they push, in its order. Apply has the statements of apply.rs, each
--                operation as the list of its statements in order, and the messages of its refusals.
--                Fingerprint is the hash of types.rs, over UTF-8, and Build is `Plan::build` from the
--                live tables and `compute_plan_id`, whose `Debug` texts are parameters. Introspect
--                is introspect.rs: Identifiers for the names in stored statements, Rows for the rows
--                of the catalogue, Actual for what is made of them, Tables for the queries. Scope has
--                the tables that a plan manages and `Plan::build` on a database, History is
--                history.rs, and Apply/Run is `apply` of apply.rs, whose loop over the operations
--                runs the statements of Apply one by one. Desired is desired.rs and registry.rs, where
--                the entries that the linker collects are an argument.
--   Connection   src/connection.rs: Log is the log of recent queries and Value the texts of its values.
--                Act is code that runs statements on one connection; what rusqlite does is the record
--                `Sqlite`, with the rows of its queries. Access has initialization and the ways to a
--                connection on one thread, without the locks. Transaction is
--                `Connection::transaction` on one thread: the world has `GLOBAL`, `TX_STATE`, the log
--                and the database, whose type `D` and whose `execute_batch` are parameters. Pool is
--                the pool of readers of several threads; each step holds the pool's lock.
--   Model        src/model/mod.rs: the column, key and index metadata. Params is params.rs: Value, Keys
--                and Paths for `ParamValue` with the keys and paths of forms, where a `&mut` is passed
--                and returned, and Deserialize for its deserializer, whose call of serde's visitor is
--                returned as a value of `Visit`; Numbers is what it uses of `str::parse`.
--                Association is src/model/association: HasMany with its cache, without the lock,
--                HasManyQuery and BelongsTo. Record is mod.rs: the methods that run statements. Keys has
--                primary keys (mod.rs) and the integers of sql_field.rs. Validation is validation.rs,
--                Builder is builder.rs.
--   Sql          src/sql: Render, Ddl, Mutation and Select are render.rs, schema.rs, mutation.rs and
--                select.rs. Placeholders is no code of the program: it reads `?1`, `?2` and so on back
--                out of a statement, and, in Assigned and Inserted, which name a statement gives
--                each of them to.
--   Query        src/model/comparison.rs (Comparison) and src/model/query: Expression is
--                expression.rs, Plan is query.rs and eager.rs, Run runs a plan, Iteration is lazy.rs
--                and chunked.rs.
--                `&mut Vec<Value>` is passed and returned. A bound value is of any type `V`. The
--                database is the record `Database`, and an iterator a function from its state.
--   Tests        runs at concrete inputs.
--
-- Bounds and fuel. Characters are numbers, and `usize` is a number below 2 ^ 64 where an addition
-- saturates (`saturating_add`). `decimal` runs on fuel one above its number. `collect`, a `for` loop
-- over an iterator, runs on fuel and returns nothing when it runs out; one more than the rows is
-- enough.
-- `read_json_string` runs on fuel above the length of the text.
--
-- Not modelled: what rusqlite and SQLite do with a statement, the lock of the writer and the gate in
-- src/connection.rs, the linker's part of the registry (src/schema/registry.rs), serde's visitors
-- of src/model/params.rs, the SQL fields that hand their value to rusqlite (src/model/sql_field.rs),
-- and the macro crate seekwel-macros.
pub mod Prelude
pub mod Errors
pub mod Schema
pub mod Tests
pub mod Connection
pub mod Model
pub mod Sql
pub mod Query
