-- ===== src/Schema/Plan.antt =====
-- The plan of src/schema/plan.rs: its operations and blockers.
pub mod Render
pub mod Equality
use seekwel.Prelude.{ℕ, Bool, true, false, not, Option, List, Text, is_empty, any}
use seekwel.Schema.Types.{ColumnDef, IndexDef, TableDef, SchemaDef}

pub data ApplyMode : Type 0 where
  safe_only allow_destructive : ApplyMode

pub data RebuildReason : Type 0 where
  drop_columns : List Text → RebuildReason
  change_primary_key_name change_primary_key_type : Text → Text → RebuildReason
  change_column_type : Text → Text → Text → RebuildReason
  change_nullability : Text → Bool → Bool → RebuildReason
  change_default : Text → Option Text → Option Text → RebuildReason

-- A rebuild has the table's name, its old and its new definition, and the reasons.
pub data PlanOp : Type 0 where
  create_table : TableDef → PlanOp
  add_column : Text → ColumnDef → PlanOp
  create_index drop_index : Text → IndexDef → PlanOp
  rebuild_table : Text → TableDef → TableDef → List RebuildReason → PlanOp
  drop_table : TableDef → PlanOp

pub data PlanBlocker : Type 0 where
  registry_uncertain uncertain : Text → PlanBlocker
  required_column_addition unsupported_inline_feature : Text → Text → PlanBlocker
  real_foreign_keys : Text → PlanBlocker
  dependent_view dependent_trigger : Text → Text → PlanBlocker

pub record Plan : Type 0 where
  pub artifact_version : ℕ
  pub source : SchemaDef
  pub target : SchemaDef
  pub source_fingerprint : Text
  pub target_fingerprint : Text
  pub ops : List PlanOp
  pub blockers : List PlanBlocker
  pub plan_id : Text

unfoldable pub is_blocked : Plan → Bool
is_blocked plan = not (is_empty plan.blockers)

unfoldable pub op_is_destructive : PlanOp → Bool
op_is_destructive (rebuild_table table before after reasons) = true
op_is_destructive (drop_table table) = true
op_is_destructive _ = false

unfoldable pub is_destructive : Plan → Bool
unfolding op_is_destructive
is_destructive plan = any op_is_destructive plan.ops
