-- ===== src/Model/Types.antt =====
-- The column, index and primary-key metadata of src/model/mod.rs.
use seekwel.Prelude.{Bool, Option, Text}

pub record ColumnDef : Type 0 where
  pub name : Text
  pub sql_type : Text
  pub nullable : Bool
  pub default_sql : Option Text

pub record PrimaryKeyDef : Type 0 where
  pub name : Text
  pub sql_type : Text
  pub auto_increment : Bool

pub record IndexDef : Type 0 where
  pub name : Text
  pub column : Text
  pub unique : Bool
