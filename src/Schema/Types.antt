-- ===== src/Schema/Types.antt =====
-- The schema types of src/schema/types.rs.
use seekwel.Prelude.{ℕ, Bool, Option, List, Text, map, codes}

pub record PrimaryKeyDef : Type 0 where
  pub name : Text
  pub sql_type : Text

pub record ColumnDef : Type 0 where
  pub name : Text
  pub sql_type : Text
  pub nullable : Bool
  pub default_sql : Option Text

pub record IndexDef : Type 0 where
  pub name : Text
  pub column : Text
  pub unique : Bool

pub record TableDef : Type 0 where
  pub name : Text
  pub primary_key : PrimaryKeyDef
  pub columns : List ColumnDef
  pub indexes : List IndexDef

pub record SchemaDef : Type 0 where
  pub tables : List TableDef

abbrev pub artifact_version : ℕ
artifact_version = 2

abbrev pub history_table : Text
history_table = codes "_seekwel_schema_history"

unfoldable pub table_names : SchemaDef → List Text
table_names s = map (λ (t : TableDef). t.name) s.tables
