-- ===== src/Schema/Desired.antt =====
-- src/schema/desired.rs and src/schema/registry.rs: the schema that models ask for. The entries of the
-- registry, which the linker collects on ELF targets, are the tables that they build.
use seekwel.Prelude.{Option, none, some, List, [], ◌∷◌, ◌++◌, map, Text}
use seekwel.Errors.{Result}
use seekwel.Connection.Act.{Sqlite, Act, ◌>>=◌, lift}
use seekwel.Model.Types
use seekwel.Query.Plan.{ModelInfo}
use seekwel.Schema.Types.{TableDef, SchemaDef}
use seekwel.Schema.Plan.{Plan, PlanOp, PlanBlocker}
use seekwel.Schema.Normalize.{normalized}
use seekwel.Schema.Scope.{build_plan}

column_of : Types.ColumnDef → seekwel.Schema.Types.ColumnDef
column_of column = record {
  name = column.name;
  sql_type = column.sql_type;
  nullable = column.nullable;
  default_sql = column.default_sql;
}

index_of : Types.IndexDef → seekwel.Schema.Types.IndexDef
index_of index = record { name = index.name; column = index.column; unique = index.unique }

-- `table_for_model` of a model and its indexes.
unfoldable pub table_for_model : ModelInfo → List Types.IndexDef → TableDef
unfolding column_of index_of
table_for_model model indexes = record {
  name = model.table_name;
  primary_key = record { name = model.primary_key.name; sql_type = model.primary_key.sql_type };
  columns = map column_of model.columns;
  indexes = map index_of indexes;
}

-- `filter_map(RegistryEntry::build)`; the sentinel builds nothing.
unfoldable pub registered_tables : List (Option TableDef) → List TableDef
registered_tables [] = []
registered_tables (none ∷ entries) = registered_tables entries
registered_tables (some table ∷ entries) = table ∷ registered_tables entries

pub record SchemaBuilder : Type 0 where
  pub tables : List TableDef

unfoldable pub new_builder : SchemaBuilder
new_builder = record { tables = [] }

-- `SchemaBuilder::model`
unfoldable pub add_model : ModelInfo → List Types.IndexDef → SchemaBuilder → SchemaBuilder
unfolding table_for_model
add_model model indexes builder = record {
  tables = builder.tables ++ table_for_model model indexes ∷ [];
}

unfoldable pub registered : List (Option TableDef) → SchemaBuilder
unfolding registered_tables
registered entries = record { tables = registered_tables entries }

unfoldable pub build_schema : {S : Type 0} → SchemaBuilder → Result S SchemaDef
unfolding normalized
build_schema builder = normalized (record { tables = builder.tables })

module _ {S R Row D : Type 0} (sqlite : Sqlite S R Row D) where
  -- `SchemaBuilder::plan`
  unfoldable pub plan_schema : (PlanOp → Text) → (PlanBlocker → Text) → SchemaBuilder → Act S D Plan
  unfolding build_schema
  plan_schema debug_op debug_blocker builder =
      lift (build_schema builder) >>= build_plan sqlite debug_op debug_blocker
