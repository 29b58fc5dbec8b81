-- ===== src/Schema/Diff.antt =====
-- `diff` of src/schema/diff.rs: from the live tables to the desired ones.
pub mod Lookup
pub mod Unchanged
pub mod Rebuilds
pub mod Destruction
pub mod Requirements
pub mod Phases
pub mod Order
use seekwel.Prelude.{
  ℕ, ◌≡◌, Bool, true, false, not, ◌&&◌, ◌||◌, Option, none, some, List, [], ◌∷◌, ◌++◌, map, Text,
  codes, ◌==◌, le, ltb, leb, eqb, is_empty, is_some, if◌then◌else◌,
}
use seekwel.Prelude.Sorting.{sort_by}
use seekwel.Prelude.Maps.{TreeMap, get, contains_key, insert_all}
use seekwel.Errors.{Result, ok, ◌>>=◌}
use seekwel.Schema.Types.{PrimaryKeyDef, ColumnDef, IndexDef, TableDef, SchemaDef}
use seekwel.Schema.Affinity.{from_declared_type, same_affinity}
use seekwel.Schema.Normalize.{normalized, by_name}
use seekwel.Schema.Plan.{
  RebuildReason, drop_columns, change_primary_key_name, change_primary_key_type, change_column_type,
  change_nullability, change_default, PlanOp, create_table, add_column, create_index, drop_index,
  rebuild_table, drop_table, PlanBlocker, registry_uncertain, uncertain, required_column_addition,
  unsupported_inline_feature, real_foreign_keys, dependent_view, dependent_trigger,
}

-- A live table. `replay_sql` holds the statements of its triggers and of its unmanaged indexes.
pub record ActualTable : Type 0 where
  pub table : TableDef
  pub unsupported_inline_features : List Text
  pub has_real_foreign_keys : Bool
  pub dependent_views : List Text
  pub dependent_external_triggers : List Text
  pub replay_sql : List Text

pub record DiffResult : Type 0 where
  pub source : SchemaDef
  pub ops : List PlanOp
  pub blockers : List PlanBlocker

abbrev when : {A : Type 0} → Bool → List A → List A
when test xs = if test then xs else []

unfoldable pub plan_op_sort_key : PlanOp → ℕ × Text × Text
plan_op_sort_key (drop_index table index) = (0, table, index.name)
plan_op_sort_key (create_table table) = (1, table.name, [])
plan_op_sort_key (add_column table column) = (2, table, column.name)
plan_op_sort_key (rebuild_table table before after reasons) = (3, table, [])
plan_op_sort_key (create_index table index) = (4, table, index.name)
plan_op_sort_key (drop_table table) = (5, table.name, [])

unfoldable pub blocker_sort_key : PlanBlocker → ℕ × Text × Text
blocker_sort_key (registry_uncertain message) = (0, message, [])
blocker_sort_key (required_column_addition table column) = (1, table, column)
blocker_sort_key (unsupported_inline_feature table feature) = (2, table, feature)
blocker_sort_key (real_foreign_keys table) = (3, table, [])
blocker_sort_key (dependent_view table view) = (4, table, view)
blocker_sort_key (dependent_trigger table trigger) = (5, table, trigger)
blocker_sort_key (uncertain message) = (6, message, [])

-- The lexicographic order of two keys.
abbrev pub le_key : ℕ × Text × Text → ℕ × Text × Text → Bool
le_key (a, s, x) (b, t, y) = if eqb a b then (if s == t then le x y else le s t) else leb a b

abbrev pub le_op : PlanOp → PlanOp → Bool
le_op a b = le_key (plan_op_sort_key a) (plan_op_sort_key b)

abbrev pub le_blocker : PlanBlocker → PlanBlocker → Bool
le_blocker a b = le_key (blocker_sort_key a) (blocker_sort_key b)

same_bool : Bool → Bool → Bool
same_bool true b = b
same_bool false b = not b

same_default : Option Text → Option Text → Bool
same_default none none = true
same_default (some a) (some b) = a == b
same_default _ _ = false

-- The reasons to rebuild that the primary keys give, the desired one first.
unfoldable pub key_reasons : PrimaryKeyDef → PrimaryKeyDef → List RebuildReason
key_reasons desired actual =
    when (not (desired.name == actual.name)) (change_primary_key_name actual.name desired.name ∷ [])
    ++ when
        (not (
            same_affinity (from_declared_type desired.sql_type)
              (from_declared_type actual.sql_type))
          || not (desired.sql_type == actual.sql_type))
        (change_primary_key_type actual.sql_type desired.sql_type ∷ [])

-- The reasons to rebuild that a column in both tables gives.
unfoldable pub column_reasons : Text → ColumnDef → ColumnDef → List RebuildReason
unfolding same_default same_bool
column_reasons name desired actual =
    when
      (not
        (same_affinity (from_declared_type desired.sql_type) (from_declared_type actual.sql_type)))
      (change_column_type name actual.sql_type desired.sql_type ∷ [])
    ++ (when (not (same_bool desired.nullable actual.nullable))
          (change_nullability name actual.nullable desired.nullable ∷ [])
        ++ when (not (same_default desired.default_sql actual.default_sql))
            (change_default name actual.default_sql desired.default_sql ∷ []))

-- What the loop over the desired columns gathers.
pub record ColumnChanges : Type 0 where
  pub additions : List ColumnDef
  pub reasons : List RebuildReason
  pub refusals : List PlanBlocker

unfoldable pub column_changes : Text → TreeMap ColumnDef → TreeMap ColumnDef → ColumnChanges
column_changes table actual [] = record { additions = []; reasons = []; refusals = [] }
column_changes table actual ((name, desired) ∷ rest) =
    let tail = column_changes table actual rest in
    elim (get actual name) [
      | none ↦
          if desired.nullable || is_some desired.default_sql
          then record tail { additions = desired ∷ tail.additions }
          else record tail { refusals = required_column_addition table name ∷ tail.refusals }
      | some found ↦ record tail { reasons = column_reasons name desired found ++ tail.reasons }
    ]

-- The keys of the first map that the second does not have.
unfoldable pub missing_keys : {A B : Type 0} → TreeMap A → TreeMap B → List Text
missing_keys [] m = []
missing_keys ((name, v) ∷ rest) m =
    let tail = missing_keys rest m in if contains_key m name then tail else name ∷ tail

unfoldable pub removal_reasons : List Text → List RebuildReason
removal_reasons removed = when (not (is_empty removed)) (drop_columns removed ∷ [])

-- The blockers of any change that replaces a table.
unfoldable pub dependents : Text → ActualTable → List PlanBlocker
dependents name actual =
    when actual.has_real_foreign_keys (real_foreign_keys name ∷ [])
    ++ (map (dependent_view name) actual.dependent_views
        ++ map (dependent_trigger name) actual.dependent_external_triggers)

-- The loops over the indexes.
unfoldable pub wanted_indexes : Text → TreeMap IndexDef → TreeMap IndexDef → List PlanOp
unfolding same_bool
wanted_indexes table actual [] = []
wanted_indexes table actual ((name, desired) ∷ rest) =
    let tail = wanted_indexes table actual rest in
    elim (get actual name) [
      | none ↦ create_index table desired ∷ tail
      | some found ↦
          if not (desired.column == found.column) || not (same_bool desired.unique found.unique)
          then drop_index table found ∷ create_index table desired ∷ tail
          else tail
    ]

unfoldable pub unwanted_indexes : Text → TreeMap IndexDef → TreeMap IndexDef → List PlanOp
unwanted_indexes table desired [] = []
unwanted_indexes table desired ((name, found) ∷ rest) =
    let tail = unwanted_indexes table desired rest in
    if contains_key desired name then tail else drop_index table found ∷ tail

columns_by_name : TableDef → TreeMap ColumnDef
columns_by_name t = insert_all (λ (c : ColumnDef). c.name) t.columns []

indexes_by_name : TableDef → TreeMap IndexDef
indexes_by_name t = insert_all (λ (i : IndexDef). i.name) t.indexes []

-- Every reason to rebuild a live table, in the order in which the code finds them.
unfoldable pub rebuild_reasons : Text → TableDef → ActualTable → List RebuildReason
unfolding columns_by_name
rebuild_reasons name desired actual =
    key_reasons desired.primary_key actual.table.primary_key
    ++ ((column_changes name (columns_by_name actual.table) (columns_by_name desired)).reasons
        ++ removal_reasons (missing_keys (columns_by_name actual.table) (columns_by_name desired)))

-- The desired table, where the live database has a table of this name.
unfoldable pub diff_table : Text → TableDef → ActualTable → List PlanOp × List PlanBlocker
unfolding columns_by_name indexes_by_name
diff_table name desired actual =
    let changes = column_changes name (columns_by_name actual.table) (columns_by_name desired) in
    let reasons = rebuild_reasons name desired actual in
    let actual_indexes = indexes_by_name actual.table in
    let desired_indexes = indexes_by_name desired in
    if not (is_empty reasons)
    then (
      rebuild_table name actual.table desired reasons ∷ [],
      changes.refusals
          ++ (map (unsupported_inline_feature name) actual.unsupported_inline_features
              ++ dependents name actual),
    )
    else (
      map (add_column name) (sort_by (by_name (λ (c : ColumnDef). c.name)) changes.additions)
          ++ (wanted_indexes name actual_indexes desired_indexes
              ++ unwanted_indexes name desired_indexes actual_indexes),
      changes.refusals,
    )

-- The loop over the desired tables.
unfoldable pub diff_tables : TreeMap ActualTable → TreeMap TableDef → List PlanOp × List PlanBlocker
diff_tables actual [] = ([], [])
diff_tables actual ((name, desired) ∷ rest) =
    let (ops, blockers) = diff_tables actual rest in
    elim (get actual name) [
      | none ↦ (create_table desired ∷ ops, blockers)
      | some found ↦ let (o, b) = diff_table name desired found in (o ++ ops, b ++ blockers)
    ]

-- The loop over the live tables that are not desired.
unfoldable pub drop_tables : TreeMap TableDef → TreeMap ActualTable → List PlanOp × List PlanBlocker
drop_tables desired [] = ([], [])
drop_tables desired ((name, found) ∷ rest) =
    let (ops, blockers) = drop_tables desired rest in
    if contains_key desired name
    then (ops, blockers)
    else (drop_table found.table ∷ ops, dependents name found ++ blockers)

unfoldable pub diff_parts : SchemaDef → TreeMap ActualTable → List PlanOp × List PlanBlocker
diff_parts target actual =
    let desired = insert_all (λ (t : TableDef). t.name) target.tables [] in
    let (kept_ops, kept_blockers) = diff_tables actual desired in
    let (dropped_ops, dropped_blockers) = drop_tables desired actual in
    (kept_ops ++ dropped_ops, kept_blockers ++ dropped_blockers)

abbrev pub actual_schema : TreeMap ActualTable → SchemaDef
actual_schema actual = record { tables = map (λ (e : Text × ActualTable). e.1.table) actual }

unfoldable pub diff : {S : Type 0} → SchemaDef → TreeMap ActualTable → Result S DiffResult
diff target actual = normalized (actual_schema actual) >>= λ source.
    let (ops, blockers) = diff_parts target actual in
    ok (record { source = source; ops = sort_by le_op ops; blockers = sort_by le_blocker blockers })
