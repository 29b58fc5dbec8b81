-- ===== src/Schema/Introspect/Actual.antt =====
-- What `introspect_managed` of src/schema/introspect.rs makes of the rows that it read for a table.
pub mod Managed
use seekwel.Prelude.{
  ℕ, Bool, true, false, not, ◌&&◌, ◌||◌, Option, none, some, List, [], ◌∷◌, ◌++◌, map, Text, codes,
  ◌==◌, length, any, ltb, eqb, if◌then◌else◌,
}
use seekwel.Prelude.Integers.{is_positive, is_number}
use seekwel.Prelude.Search.{eq_ignore_ascii_case, to_ascii_lowercase, to_ascii_uppercase, contains}
use seekwel.Prelude.Maps.{TreeMap, insert_entry, get}
use seekwel.Errors
use seekwel.Errors.{Result, ok, err}
use seekwel.Connection.Value.{text, double}
use seekwel.Connection.Act.{
  Sqlite, Act, ◌>>=◌, lift, pure, panic, branch, query_rows, query_all, query_optional,
}
use seekwel.Schema.Types.{history_table, PrimaryKeyDef, ColumnDef, IndexDef}
use seekwel.Schema.Affinity.{integer, from_declared_type, same_affinity, trim}
use seekwel.Schema.Diff.{ActualTable}
use seekwel.Schema.Introspect.Identifiers.{is_managed_index_name, sql_references_identifier}
use seekwel.Schema.Introspect.Rows.{
  ColumnRow, IndexRow, ReplayKind, view, trigger, ReplaySqlWithTable, column_row, index_row,
  column_names_of, group_replays, list_or_default, kind_of,
}

filter : {A : Type 0} → (A → Bool) → List A → List A
filter p [] = []
filter p (x ∷ xs) = let rest = filter p xs in if p x then x ∷ rest else rest

find : {A : Type 0} → (A → Bool) → List A → Option A
find p [] = none
find p (x ∷ xs) = let rest = find p xs in if p x then some x else rest

pk_count : List ColumnRow → ℕ
unfolding filter
pk_count rows = length (filter (λ (c : ColumnRow). is_positive c.pk) rows)

primary_key_column : List ColumnRow → Option ColumnRow
unfolding find
primary_key_column rows = find (λ (c : ColumnRow). is_number 1 c.pk) rows

-- The columns' key, or what stands in for it.
abbrev key_of : Option ColumnRow → PrimaryKeyDef
key_of none = record { name = codes "id"; sql_type = codes "INTEGER" }
key_of (some c) = record { name = c.name; sql_type = c.sql_type }

unfoldable pub primary_key_def : List ColumnRow → PrimaryKeyDef
unfolding primary_key_column
primary_key_def rows = key_of (primary_key_column rows)

exact_key : ℕ → Option ColumnRow → Bool
unfolding eq_ignore_ascii_case
exact_key count none = false
exact_key count (some c) =
    eqb count 1
    && (same_affinity (from_declared_type c.sql_type) integer
        && (eq_ignore_ascii_case (trim c.sql_type) (codes "INTEGER") && is_number 0 c.hidden))

unfoldable pub primary_key_is_exact : List ColumnRow → Bool
unfolding exact_key pk_count primary_key_column
primary_key_is_exact rows = exact_key (pk_count rows) (primary_key_column rows)

abbrev push_if : Bool → Text → List Text
push_if test message = if test then message ∷ [] else []

unfoldable pub unsupported_inline_features : List ColumnRow → Text → List Text
unfolding pk_count
unsupported_inline_features rows table_sql =
    let sql = map to_ascii_uppercase table_sql in
    push_if (not (primary_key_is_exact rows))
      (codes "managed tables must use a single `<name> INTEGER PRIMARY KEY` column")
    ++ (push_if (ltb 1 (pk_count rows)) (codes "composite primary keys are not supported")
        ++ (push_if (any (λ (c : ColumnRow). not (is_number 0 c.hidden)) rows)
              (codes "generated or hidden columns are not supported")
            ++ (push_if (contains (codes "CHECK") sql) (codes "CHECK constraints are not supported")
                ++ (push_if (contains (codes "WITHOUT ROWID") sql)
                      (codes "WITHOUT ROWID tables are not supported")
                    ++ push_if (contains (codes "GENERATED ALWAYS") sql)
                        (codes "generated columns are not supported")))))

column_def : ColumnRow → ColumnDef
column_def c = record {
  name = c.name;
  sql_type = c.sql_type;
  nullable = not c.not_null;
  default_sql = c.default_sql;
}

unfoldable pub column_defs : List ColumnRow → List ColumnDef
unfolding filter column_def
column_defs rows = map column_def (
    filter (λ (c : ColumnRow). is_number 0 c.hidden && not (c.name == (primary_key_def rows).name))
      rows)

is_view : ReplayKind → Bool
is_view view = true
is_view _ = false

is_trigger : ReplayKind → Bool
is_trigger trigger = true
is_trigger _ = false

-- The names of the candidates of this kind that mention the table and do not belong to it.
unfoldable pub dependents_of : (ReplayKind → Bool) → Text → List ReplaySqlWithTable → List Text
unfolding filter
dependents_of kind table candidates =
    map (λ (c : ReplaySqlWithTable). c.name)
      (filter
        (λ (c : ReplaySqlWithTable).
          not (c.tbl_name == table) && (sql_references_identifier c.sql table && kind c.kind))
        candidates)

-- The loop over the candidates fills one vector of views and one of triggers.
unfoldable pub actual_table :
    Text
    → Text
    → List ColumnRow
    → List IndexDef
    → TreeMap (List Text)
    → List ReplaySqlWithTable
    → Bool
    → ActualTable
unfolding is_view is_trigger
actual_table name table_sql rows indexes replayables candidates foreign = record {
  table = record {
    name = name;
    primary_key = primary_key_def rows;
    columns = column_defs rows;
    indexes = indexes;
  };
  unsupported_inline_features = unsupported_inline_features rows table_sql;
  has_real_foreign_keys = foreign;
  dependent_views = dependents_of is_view name candidates;
  dependent_external_triggers = dependents_of is_trigger name candidates;
  replay_sql = list_or_default (get replayables name);
}
