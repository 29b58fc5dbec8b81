-- ===== src/Schema/Plan/Equality.antt =====
-- The derived equality of operations.
use seekwel.Prelude.{List}
use native.Mathlib.Decide.{ℕ_discrete}
use seekwel.Schema.Types.{PrimaryKeyDef, ColumnDef, IndexDef, TableDef}
use seekwel.Schema.Plan.{PlanOp, RebuildReason}

pub ColumnDef-discrete : Discrete ColumnDef
ColumnDef-discrete = hlevel (ℕ_discrete)

pub PrimaryKeyDef-discrete : Discrete PrimaryKeyDef
PrimaryKeyDef-discrete = hlevel (ℕ_discrete)

pub IndexDef-discrete : Discrete IndexDef
IndexDef-discrete = hlevel (ℕ_discrete)

pub TableDef-discrete : Discrete TableDef
TableDef-discrete =
    hlevel (ℕ_discrete, ColumnDef-discrete, IndexDef-discrete, PrimaryKeyDef-discrete)

pub RebuildReason-discrete : Discrete RebuildReason
RebuildReason-discrete = hlevel (ℕ_discrete)

pub ops_discrete : Discrete (List PlanOp)
ops_discrete =
    hlevel
      (ℕ_discrete, TableDef-discrete, ColumnDef-discrete, IndexDef-discrete, RebuildReason-discrete)
