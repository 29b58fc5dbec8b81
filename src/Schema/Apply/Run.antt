-- ===== src/Schema/Apply/Run.antt =====
-- `apply` of src/schema/apply.rs.
pub mod Guards
pub mod Rollback
pub mod Atomic
use seekwel.Prelude.{
  Bool, true, false, not, ◌&&◌, Option, none, some, List, [], ◌∷◌, ◌++◌, map, Text, codes, ◌==◌,
  is_empty, any, if◌then◌else◌,
}
use seekwel.Prelude.Maps.{TreeMap, get}
use seekwel.Errors.{Error, schema_drift, schema_blocked, Result, ok, err, guard}
use seekwel.Connection.Transaction.{World}
use seekwel.Connection.Act.{
  Sqlite, Act, ◌>>=◌, ◌>>◌, lift, pure, require, branch, run_batch, query_row,
}
use seekwel.Connection.Access.{with_exclusive_write}
use seekwel.Schema.Types.{SchemaDef, TableDef}
use seekwel.Schema.Fingerprint.{fingerprint}
use seekwel.Schema.Plan.{
  ApplyMode, safe_only, allow_destructive, Plan, PlanOp, create_table, add_column, create_index,
  drop_index, rebuild_table, drop_table, op_is_destructive,
}
use seekwel.Schema.Plan.Equality.{ops_discrete}
use seekwel.Schema.Diff.{ActualTable, DiffResult, diff}
use seekwel.Schema.Introspect.Tables.{introspect_managed}
use seekwel.Schema.History.{ensure_history_table, record_success}
use seekwel.Schema.Scope.{plan_scope}
use seekwel.Schema.Apply.{
  render_add_column_sql, render_create_index_sql, render_drop_index_sql, render_drop_table_sql,
  create_statements, rebuild_statements, format_blockers,
}

same_ops : List PlanOp → List PlanOp → Bool
same_ops a b = elim (ops_discrete a b) [ yes e ↦ true | no e ↦ false ]

is_safe_only : ApplyMode → Bool
is_safe_only safe_only = true
is_safe_only allow_destructive = false

-- The first refusal of a plan, from the difference that the live database has now.
unfoldable pub refusal : {S : Type 0} → Plan → ApplyMode → DiffResult → Option (Error S)
unfolding same_ops is_safe_only
refusal plan mode current =
    if not (fingerprint current.source == plan.source_fingerprint)
    then some (
        schema_drift (
          codes "expected source fingerprint "
          ++ (plan.source_fingerprint ++ (codes ", found " ++ fingerprint current.source))))
    else if not (same_ops current.ops plan.ops)
    then some (
        schema_blocked (
          codes
            "live schema still matches the same source fingerprint, but the planned operations changed; rebuild a fresh plan before applying"))
    else if not (is_empty current.blockers)
    then some (schema_blocked (format_blockers current.blockers))
    else if is_safe_only mode && any op_is_destructive current.ops
    then some (
        schema_blocked (
          codes
            "plan contains destructive operations; re-run apply with ApplyMode::AllowDestructive"))
    else none

-- `if integrity != "ok" { return Err(..) }`
checked : {S : Type 0} → Text → Result S (Unit {0})
checked integrity =
    guard (integrity == codes "ok")
      (schema_blocked (codes "integrity_check failed after schema apply: " ++ integrity))

-- The statements of an operation, in the order in which they run.
unfoldable pub op_statements : {S : Type 0} → TreeMap ActualTable → PlanOp → Result S (List Text)
op_statements actual (create_table table) = ok (create_statements table.name table)
op_statements actual (add_column table column) = ok (render_add_column_sql table column ∷ [])
op_statements actual (create_index table index) = ok (render_create_index_sql table index ∷ [])
op_statements actual (drop_index table index) = ok (render_drop_index_sql index ∷ [])
op_statements actual (rebuild_table table from to reasons) = elim (get actual table) [
  | none ↦ err (
      schema_blocked (codes "table `" ++ (table ++ codes "` disappeared before rebuild could run")))
  | some found ↦ ok (rebuild_statements table from to found.replay_sql)
]
op_statements actual (drop_table table) = ok (render_drop_table_sql table.name ∷ [])

module _ {S R Row D : Type 0} (sqlite : Sqlite S R Row D) where
  -- Each statement is recorded and run, up to the first error.
  unfoldable pub run_all : List Text → Act S D (Unit {0})
  run_all [] = pure tt
  run_all (sql ∷ rest) = run_batch sqlite sql >> run_all rest

  unfoldable pub run_ops : TreeMap ActualTable → List PlanOp → Act S D (Unit {0})
  unfolding run_all
  run_ops actual [] = pure tt
  run_ops actual (op ∷ ops) = (lift (op_statements actual op) >>= run_all) >> run_ops actual ops

  unfoldable pub check_integrity : Act S D (Unit {0})
  unfolding checked
  check_integrity =
      query_row sqlite (codes "PRAGMA integrity_check") [] (sqlite.text_at 0) >>= λ integrity.
      lift (checked integrity)

  -- `commit`, and `rollback` where it fails.
  commit_or_roll_back :
      {A : Type 0} → A → Option (Result S (Unit {0})) × World D → Option (Result S A) × World D
  commit_or_roll_back value (some (ok _), w) = (some (ok value), w)
  commit_or_roll_back value (some (err e), w) =
      (some (err e), (run_batch sqlite (codes "ROLLBACK") w).1)
  commit_or_roll_back value (none, w) = (none, w)

  close_transaction : {A : Type 0} → Option (Result S A) × World D → Option (Result S A) × World D
  unfolding commit_or_roll_back
  close_transaction (some (ok value), w) =
      commit_or_roll_back value (run_batch sqlite (codes "COMMIT") w)
  close_transaction (some (err e), w) = (some (err e), (run_batch sqlite (codes "ROLLBACK") w).1)
  close_transaction (none, w) = (none, (run_batch sqlite (codes "ROLLBACK") w).1)

  unfoldable pub immediate_transaction : {A : Type 0} → Act S D A → Act S D A
  unfolding close_transaction
  immediate_transaction f =
      run_batch sqlite (codes "BEGIN IMMEDIATE") >> λ w. close_transaction (f w)

  -- What the transaction runs.
  unfoldable pub apply_body : Plan → TreeMap ActualTable → DiffResult → Act S D (Unit {0})
  apply_body plan actual current =
      ensure_history_table sqlite
      >> (run_ops actual current.ops
          >> (check_integrity
              >> record_success sqlite plan.plan_id plan.source_fingerprint plan.target_fingerprint
                  plan.target))

  unfoldable pub writes : Plan → TreeMap ActualTable → DiffResult → Act S D (Unit {0})
  writes plan actual current =
      immediate_transaction (apply_body plan actual current)
      >> run_batch sqlite (codes "PRAGMA optimize")

  -- What follows the guards.
  unfoldable pub admitted :
      Plan → TreeMap ActualTable → DiffResult → Option (Error S) → Act S D (Unit {0})
  admitted plan actual current (some e) = lift (err e)
  admitted plan actual current none = writes plan actual current

  unfoldable pub apply : Plan → ApplyMode → Act S D (Unit {0})
  unfolding admitted
  apply plan mode = with_exclusive_write (do
    actual ← introspect_managed sqlite (plan_scope plan)
    current ← lift (diff plan.target actual)
    admitted plan actual current (refusal plan mode current))
