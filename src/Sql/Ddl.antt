-- ===== src/Sql/Ddl.antt =====
-- src/sql/schema.rs.
use seekwel.Prelude.{if◌then◌else◌, is_empty, Text, codes, List, ◌++◌}
use seekwel.Model.Types.{ColumnDef, IndexDef, PrimaryKeyDef}
use seekwel.Sql.Render.{column_definitions}

unfoldable pub create_table : Text → PrimaryKeyDef → List ColumnDef → Text
create_table table_name primary_key columns =
    let definitions = column_definitions columns in
    let key = primary_key.name ++ (codes " " ++ (primary_key.sql_type ++ codes " PRIMARY KEY")) in
    if is_empty definitions
    then codes "CREATE TABLE IF NOT EXISTS " ++ (table_name ++ (codes " (" ++ (key ++ codes ")")))
    else codes "CREATE TABLE IF NOT EXISTS "
      ++ (table_name ++ (codes " (" ++ (key ++ (codes ", " ++ (definitions ++ codes ")")))))

unfoldable pub create_index : Text → IndexDef → Text
create_index table_name index =
    let unique = if index.unique then codes "UNIQUE " else codes "" in
    codes "CREATE "
    ++ (unique
        ++ (codes "INDEX IF NOT EXISTS "
            ++ (index.name
                ++ (codes " ON " ++ (table_name ++ (codes " (" ++ (index.column ++ codes ")")))))))
