-- ===== src/Schema/Plan/Render.antt =====
-- `Plan::to_json_string` of src/schema/plan.rs.
use seekwel.Prelude.{
  Bool, true, false, Option, none, some, List, [], ◌∷◌, ◌++◌, map, Text, codes, join,
}
use seekwel.Prelude.Decimal.{decimal}
use seekwel.Schema.Types.{ColumnDef, IndexDef, TableDef, SchemaDef}
use seekwel.Schema.Json.{json_escape}
use seekwel.Schema.Plan.{
  RebuildReason, drop_columns, change_primary_key_name, change_primary_key_type, change_column_type,
  change_nullability, change_default, PlanOp, create_table, add_column, create_index, drop_index,
  rebuild_table, drop_table, PlanBlocker, registry_uncertain, uncertain, required_column_addition,
  unsupported_inline_feature, real_foreign_keys, dependent_view, dependent_trigger, Plan,
}

abbrev quoted : Text → Text
quoted value = 34 ∷ (json_escape value ++ (34 ∷ []))

abbrev bool_json : Bool → Text
bool_json true = codes "true"
bool_json false = codes "false"

-- `"name":value`.
abbrev Field : Type 0
Field = Text × Text

abbrev field_text : Field → Text
field_text (name, value) = 34 ∷ (name ++ (34 ∷ 58 ∷ value))

-- `{"name":value,..}`, as the format strings spell it.
abbrev object : List Field → Text
object fields = 123 ∷ (join (codes ",") (map field_text fields) ++ (125 ∷ []))

abbrev array : List Text → Text
array values = 91 ∷ (join (codes ",") values ++ (93 ∷ []))

unfoldable pub optional_string_json : Option Text → Text
optional_string_json (some value) = quoted value
optional_string_json none = codes "null"

unfoldable pub column_json : ColumnDef → Text
column_json column = object (
    (codes "name", quoted column.name)
    ∷ (codes "sql_type", quoted column.sql_type)
    ∷ (codes "nullable", bool_json column.nullable)
    ∷ (codes "default_sql", optional_string_json column.default_sql)
    ∷ [])

unfoldable pub index_json : IndexDef → Text
index_json index = object (
    (codes "name", quoted index.name)
    ∷ (codes "column", quoted index.column)
    ∷ (codes "unique", bool_json index.unique)
    ∷ [])

unfoldable pub table_json : TableDef → Text
table_json table = object (
    (codes "name", quoted table.name)
    ∷ (
      codes "primary_key",
      object (
          (codes "name", quoted table.primary_key.name)
          ∷ (codes "sql_type", quoted table.primary_key.sql_type)
          ∷ []),
    )
    ∷ (codes "columns", array (map column_json table.columns))
    ∷ (codes "indexes", array (map index_json table.indexes))
    ∷ [])

unfoldable pub schema_tables_json : SchemaDef → Text
schema_tables_json schema = join (codes ",") (map table_json schema.tables)

-- An object whose first field is its kind.
abbrev kind : Text → List Field → Text
kind name fields = object ((codes "kind", quoted name) ∷ fields)

unfoldable pub reason_json : RebuildReason → Text
reason_json (drop_columns columns) =
    kind (codes "drop_columns") ((codes "columns", array (map quoted columns)) ∷ [])
reason_json (change_primary_key_name before after) =
    kind (codes "change_primary_key_name")
      ((codes "from", quoted before) ∷ (codes "to", quoted after) ∷ [])
reason_json (change_primary_key_type before after) =
    kind (codes "change_primary_key_type")
      ((codes "from", quoted before) ∷ (codes "to", quoted after) ∷ [])
reason_json (change_column_type column before after) = kind (codes "change_column_type") (
    (codes "column", quoted column)
    ∷ (codes "from", quoted before)
    ∷ (codes "to", quoted after)
    ∷ [])
reason_json (change_nullability column before after) = kind (codes "change_nullability") (
    (codes "column", quoted column)
    ∷ (codes "from_nullable", bool_json before)
    ∷ (codes "to_nullable", bool_json after)
    ∷ [])
reason_json (change_default column before after) = kind (codes "change_default") (
    (codes "column", quoted column)
    ∷ (codes "from_default_sql", optional_string_json before)
    ∷ (codes "to_default_sql", optional_string_json after)
    ∷ [])

unfoldable pub op_json : PlanOp → Text
op_json (create_table table) = kind (codes "create_table") ((codes "table", table_json table) ∷ [])
op_json (add_column table column) =
    kind (codes "add_column")
      ((codes "table", quoted table) ∷ (codes "column", column_json column) ∷ [])
op_json (create_index table index) =
    kind (codes "create_index")
      ((codes "table", quoted table) ∷ (codes "index", index_json index) ∷ [])
op_json (drop_index table index) =
    kind (codes "drop_index")
      ((codes "table", quoted table) ∷ (codes "index", index_json index) ∷ [])
op_json (rebuild_table table before after reasons) =
    kind (codes "rebuild_table")
      ((codes "table", quoted table) ∷ (codes "reasons", array (map reason_json reasons)) ∷ [])
op_json (drop_table table) = kind (codes "drop_table") ((codes "table", table_json table) ∷ [])

unfoldable pub blocker_json : PlanBlocker → Text
blocker_json (registry_uncertain message) =
    kind (codes "registry_uncertain") ((codes "message", quoted message) ∷ [])
blocker_json (required_column_addition table column) =
    kind (codes "required_column_addition")
      ((codes "table", quoted table) ∷ (codes "column", quoted column) ∷ [])
blocker_json (unsupported_inline_feature table feature) =
    kind (codes "unsupported_inline_feature")
      ((codes "table", quoted table) ∷ (codes "feature", quoted feature) ∷ [])
blocker_json (real_foreign_keys table) =
    kind (codes "real_foreign_keys") ((codes "table", quoted table) ∷ [])
blocker_json (dependent_view table view) =
    kind (codes "dependent_view") ((codes "table", quoted table) ∷ (codes "view", quoted view) ∷ [])
blocker_json (dependent_trigger table trigger) =
    kind (codes "dependent_trigger")
      ((codes "table", quoted table) ∷ (codes "trigger", quoted trigger) ∷ [])
blocker_json (uncertain message) = kind (codes "uncertain") ((codes "message", quoted message) ∷ [])

unfoldable pub to_json_string : Plan → Text
to_json_string plan = object (
    (codes "artifact_version", decimal plan.artifact_version)
    ∷ (codes "plan_id", quoted plan.plan_id)
    ∷ (codes "source_fingerprint", quoted plan.source_fingerprint)
    ∷ (codes "target_fingerprint", quoted plan.target_fingerprint)
    ∷ (
      codes "source",
      object ((codes "tables", 91 ∷ (schema_tables_json plan.source ++ (93 ∷ []))) ∷ []),
    )
    ∷ (
      codes "target",
      object ((codes "tables", 91 ∷ (schema_tables_json plan.target ++ (93 ∷ []))) ∷ []),
    )
    ∷ (codes "ops", array (map op_json plan.ops))
    ∷ (codes "blockers", array (map blocker_json plan.blockers))
    ∷ [])
