-- ===== src/Schema/Apply.antt =====
-- The statements of src/schema/apply.rs, and the messages of its refusals.
pub mod Quoting
pub mod Retained
pub mod Run
use seekwel.Prelude.{
  Bool, true, false, Option, none, some, List, [], ◌∷◌, ◌++◌, map, Text, codes, ◌==◌, join, any,
  eqb, if◌then◌else◌,
}
use seekwel.Errors.{Result, ok, err}
use seekwel.Connection.Transaction.{World, batch}
use seekwel.Schema.Types.{ColumnDef, IndexDef, TableDef}
use seekwel.Schema.Plan.{
  PlanBlocker, registry_uncertain, uncertain, required_column_addition, unsupported_inline_feature,
  real_foreign_keys, dependent_view, dependent_trigger,
}

-- `identifier.replace('"', "\"\"")`
double_quotes : Text → Text
double_quotes [] = []
double_quotes (c ∷ s) = if eqb c 34 then 34 ∷ 34 ∷ double_quotes s else c ∷ double_quotes s

unfoldable pub quote_ident : Text → Text
unfolding double_quotes
quote_ident identifier = 34 ∷ (double_quotes identifier ++ (34 ∷ []))

abbrev not_null : Bool → Text
not_null true = []
not_null false = codes " NOT NULL"

abbrev default_clause : Option Text → Text
default_clause none = []
default_clause (some sql) = codes " DEFAULT " ++ sql

unfoldable pub render_column_definition : ColumnDef → Text
render_column_definition column =
    quote_ident column.name
    ++ (codes " "
        ++ (column.sql_type ++ (not_null column.nullable ++ default_clause column.default_sql)))

unfoldable pub render_create_table_sql : Text → TableDef → Text
render_create_table_sql table_name table =
    let key =
      quote_ident table.primary_key.name
      ++ (codes " " ++ (table.primary_key.sql_type ++ codes " PRIMARY KEY")) in
    codes "CREATE TABLE "
    ++ (quote_ident table_name
        ++ (codes " ("
            ++ (join (codes ", ") (key ∷ map render_column_definition table.columns) ++ codes ")")))

unfoldable pub render_add_column_sql : Text → ColumnDef → Text
render_add_column_sql table_name column =
    codes "ALTER TABLE "
    ++ (quote_ident table_name ++ (codes " ADD COLUMN " ++ render_column_definition column))

abbrev unique_word : Bool → Text
unique_word true = codes "UNIQUE "
unique_word false = []

unfoldable pub render_create_index_sql : Text → IndexDef → Text
render_create_index_sql table_name index =
    codes "CREATE "
    ++ (unique_word index.unique
        ++ (codes "INDEX "
            ++ (quote_ident index.name
                ++ (codes " ON "
                    ++ (quote_ident table_name
                        ++ (codes " (" ++ (quote_ident index.column ++ codes ")")))))))

unfoldable pub render_drop_index_sql : IndexDef → Text
render_drop_index_sql index = codes "DROP INDEX " ++ quote_ident index.name

unfoldable pub render_drop_table_sql : Text → Text
render_drop_table_sql table = codes "DROP TABLE " ++ quote_ident table

-- The live columns that the new table has as well, each with its name on both sides.
shared_columns : List ColumnDef → TableDef → List (Text × Text)
shared_columns [] to = []
shared_columns (column ∷ columns) to =
    let rest = shared_columns columns to in
    if any (λ (c : ColumnDef). c.name == column.name) to.columns
    then (column.name, column.name) ∷ rest
    else rest

unfoldable pub retained_columns : TableDef → TableDef → List (Text × Text)
unfolding shared_columns
retained_columns from to =
    (from.primary_key.name, to.primary_key.name) ∷ shared_columns from.columns to

unfoldable pub render_copy_sql : Text → Text → List (Text × Text) → Text
render_copy_sql from_table to_table retained =
    codes "INSERT INTO "
    ++ (quote_ident to_table
        ++ (codes " ("
            ++ (join (codes ", ") (map (λ (p : Text × Text). quote_ident p.1) retained)
                ++ (codes ") SELECT "
                    ++ (join (codes ", ") (map (λ (p : Text × Text). quote_ident p.0) retained)
                        ++ (codes " FROM " ++ quote_ident from_table))))))

-- The statements of `create_table` and of `rebuild_table`, in the order in which they run.
unfoldable pub create_statements : Text → TableDef → List Text
create_statements table_name table =
    render_create_table_sql table_name table
    ∷ map (render_create_index_sql table_name) table.indexes

unfoldable pub rebuild_statements : Text → TableDef → TableDef → List Text → List Text
rebuild_statements table_name from to replay =
    let temp_name = codes "__seekwel_rebuild_" ++ table_name in
    render_create_table_sql temp_name to
    ∷ render_copy_sql table_name temp_name (retained_columns from to)
    ∷ render_drop_table_sql table_name
    ∷ (codes "ALTER TABLE "
        ++ (quote_ident temp_name ++ (codes " RENAME TO " ++ quote_ident table_name)))
    ∷ (map (render_create_index_sql table_name) to.indexes ++ replay)

in_table : Text → Text → Text
in_table table rest = codes "table `" ++ (table ++ (codes "` " ++ rest))

ticked : Text → Text
ticked name = 96 ∷ (name ++ (96 ∷ []))

unfoldable pub blocker_message : PlanBlocker → Text
unfolding in_table ticked
blocker_message (registry_uncertain message) = message
blocker_message (uncertain message) = message
blocker_message (required_column_addition table column) =
    in_table table
      (codes "needs required column " ++ (ticked column ++ codes ", which cannot be added safely"))
blocker_message (unsupported_inline_feature table feature) =
    in_table table (codes "uses unsupported feature: " ++ feature)
blocker_message (real_foreign_keys table) =
    in_table table (codes "participates in real foreign keys")
blocker_message (dependent_view table view) =
    in_table table (codes "is referenced by dependent view " ++ ticked view)
blocker_message (dependent_trigger table trigger) =
    in_table table (codes "is referenced by dependent trigger " ++ ticked trigger)

unfoldable pub format_blockers : List PlanBlocker → Text
format_blockers blockers = join (codes "; ") (map blocker_message blockers)
