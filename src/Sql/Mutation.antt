-- ===== src/Sql/Mutation.antt =====
-- src/sql/mutation.rs.
use seekwel.Prelude.{if◌then◌else◌, is_empty, length, ◌+◌, Text, codes, List, ◌++◌}
use seekwel.Model.Types.{ColumnDef, PrimaryKeyDef}
use seekwel.Sql.Render.{assignments, column_names, placeholder, placeholders}

unfoldable pub insert : Text → List ColumnDef → Text
insert table_name columns =
    if is_empty columns
    then codes "INSERT INTO " ++ (table_name ++ codes " DEFAULT VALUES")
    else codes "INSERT INTO "
      ++ (table_name
          ++ (codes " ("
              ++ (column_names columns
                  ++ (codes ") VALUES (" ++ (placeholders (length columns) 1 ++ codes ")")))))

unfoldable pub update_by_primary_key : Text → PrimaryKeyDef → List ColumnDef → Text
update_by_primary_key table_name primary_key columns =
    let key = primary_key.name in
    if is_empty columns
    then codes "UPDATE "
      ++ (table_name
          ++ (codes " SET "
              ++ (key ++ (codes " = " ++ (key ++ (codes " WHERE " ++ (key ++ codes " = ?1")))))))
    else codes "UPDATE "
      ++ (table_name
          ++ (codes " SET "
              ++ (assignments columns 1
                  ++ (codes " WHERE "
                      ++ (key ++ (codes " = " ++ placeholder (length columns + 1)))))))

unfoldable pub delete_by_primary_key : Text → PrimaryKeyDef → Text
delete_by_primary_key table_name primary_key =
    codes "DELETE FROM " ++ (table_name ++ (codes " WHERE " ++ (primary_key.name ++ codes " = ?1")))
