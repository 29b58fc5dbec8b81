-- ===== src/Schema/Canonical.antt =====
-- The stored text of a schema: `SchemaDef::canonical_string` and `SchemaDef::from_canonical` of
-- src/schema/types.rs.
pub mod Rows
pub mod RoundTrip
use seekwel.Prelude.{
  ◌==◌, join, split, lines, Bool, true, false, Option, none, some, List, [], ◌∷◌, ◌++◌, Text, codes,
  if◌then◌else◌, is_empty, any,
}
use seekwel.Errors.{Error, invalid_schema, Result, ok, err, ◌>>=◌, ◌>>◌}
use seekwel.Schema.Types.{PrimaryKeyDef, ColumnDef, IndexDef, TableDef, SchemaDef}
use seekwel.Schema.Normalize.{normalized}

-- The cells of a row with tabs between them.
pub tabbed : List Text → Text
tabbed = join (9 ∷ [])

-- `u8::from(flag)`, printed.
pub flag : Bool → Text
flag false = b'0' ∷ []
flag true = b'1' ∷ []

abbrev default_cell : Option Text → Text
default_cell none = []
default_cell (some sql) = sql

-- `writeln!` of a row, before what follows it.
pub row : List Text → Text → Text
unfolding tabbed
row cells rest = tabbed cells ++ (10 ∷ rest)

pub table_cells : TableDef → List Text
table_cells t = codes "table" ∷ t.name ∷ t.primary_key.name ∷ t.primary_key.sql_type ∷ []

pub column_cells : Text → ColumnDef → List Text
unfolding flag
column_cells table c =
    codes "column" ∷ table ∷ c.name ∷ c.sql_type ∷ flag c.nullable ∷ default_cell c.default_sql ∷ []

pub index_cells : Text → IndexDef → List Text
unfolding flag
index_cells table i = codes "index" ∷ table ∷ i.name ∷ i.column ∷ flag i.unique ∷ []

-- The three loops of `canonical_string`, each before the text `rest`.
column_rows : Text → List ColumnDef → Text → Text
unfolding row column_cells
column_rows table [] rest = rest
column_rows table (c ∷ cs) rest = row (column_cells table c) (column_rows table cs rest)

index_rows : Text → List IndexDef → Text → Text
unfolding row index_cells
index_rows table [] rest = rest
index_rows table (i ∷ is) rest = row (index_cells table i) (index_rows table is rest)

table_rows : List TableDef → Text
unfolding row table_cells column_rows index_rows
table_rows [] = []
table_rows (t ∷ ts) =
    row (table_cells t) (column_rows t.name t.columns (index_rows t.name t.indexes (table_rows ts)))

unfoldable pub canonical_string : SchemaDef → Text
unfolding table_rows
canonical_string s = table_rows s.tables

-- `tables.iter_mut().find(|table| table.name == name)`, and the change made to what it finds.
pub update_table : Text → (TableDef → TableDef) → List TableDef → List TableDef
update_table name change [] = []
update_table name change (t ∷ ts) =
    if t.name == name then change t ∷ ts else t ∷ update_table name change ts

abbrev has_table : Text → List TableDef → Bool
has_table name = any (λ (t : TableDef). t.name == name)

push_column : ColumnDef → TableDef → TableDef
push_column c t = record t { columns = t.columns ++ (c ∷ []) }

push_index : IndexDef → TableDef → TableDef
push_index i t = record t { indexes = t.indexes ++ (i ∷ []) }

-- `unwrap_or` on the next cell, and the cells after it.
next_or : Text → List Text → Text
next_or default [] = default
next_or default (x ∷ xs) = x

rest_of : List Text → List Text
rest_of [] = []
rest_of (x ∷ xs) = xs

-- `parts.next().filter(|value| !value.is_empty())`
pub default_of : List Text → Option Text
default_of [] = none
default_of ([] ∷ xs) = none
default_of ((c ∷ cs) ∷ xs) = some (c ∷ cs)

-- A name between backquotes, and the `table.name` of a row.
quoted : Text → Text
quoted name = b'`' ∷ (name ++ (b'`' ∷ []))

dotted : Text → Text → Text
dotted table name = table ++ (b'.' ∷ name)

module _ {S : Type 0} where
  abbrev schema_error : Text → Error S
  schema_error = invalid_schema

  pub parse_flag : Text → Text → Result S Bool
  unfolding quoted
  parse_flag message text =
      if text == codes "0"
      then ok false
      else if text == codes "1"
      then ok true
      else err (schema_error (message ++ quoted text))

  no_trailing : Text → List Text → Result S (Unit {0})
  no_trailing message [] = ok tt
  no_trailing message (x ∷ xs) = err (schema_error (message ++ codes " has trailing data"))

  pub known_table : Text → Text → List TableDef → Result S (Unit {0})
  unfolding quoted
  known_table what table tables =
      if has_table table tables
      then ok tt
      else err (
          schema_error (
            codes "history " ++ (what ++ (codes " row references unknown table " ++ quoted table))))

  missing : Text → Result S (List TableDef)
  missing what = err (schema_error (codes "history row is missing " ++ what))

  table_row : List TableDef → List Text → Result S (List TableDef)
  unfolding missing no_trailing next_or rest_of quoted
  table_row tables [] = missing (codes "table name")
  table_row tables (name ∷ cells) = do
    no_trailing (codes "history table row for " ++ quoted name) (rest_of (rest_of cells))
    ok (
        tables
        ++ (record {
          name = name;
          primary_key = record {
            name = next_or (codes "id") cells;
            sql_type = next_or (codes "INTEGER") (rest_of cells);
          };
          columns = [];
          indexes = [];
        }
            ∷ []))

  pub column_row : List TableDef → List Text → Result S (List TableDef)
  unfolding missing no_trailing known_table parse_flag rest_of default_of quoted dotted push_column
      update_table
  column_row tables [] = missing (codes "column table name")
  column_row tables (table ∷ []) = missing (codes "column name")
  column_row tables (table ∷ name ∷ []) = missing (codes "column type")
  column_row tables (table ∷ name ∷ sql_type ∷ []) = missing (codes "column nullability")
  column_row tables (table ∷ name ∷ sql_type ∷ nullable ∷ cells) = do
    no_trailing (codes "history column row for " ++ quoted (dotted table name)) (rest_of cells)
    known_table (codes "column") table tables
    parsed ←
        parse_flag
          (codes "history column "
            ++ (quoted (dotted table name) ++ codes " has invalid nullability flag "))
          nullable
    ok (
        update_table table
          (push_column (record {
            name = name;
            sql_type = sql_type;
            nullable = parsed;
            default_sql = default_of cells;
          }))
          tables)

  pub index_row : List TableDef → List Text → Result S (List TableDef)
  unfolding missing no_trailing known_table parse_flag quoted dotted push_index update_table
  index_row tables [] = missing (codes "index table name")
  index_row tables (table ∷ []) = missing (codes "index name")
  index_row tables (table ∷ name ∷ []) = missing (codes "index column name")
  index_row tables (table ∷ name ∷ column ∷ []) = missing (codes "index uniqueness")
  index_row tables (table ∷ name ∷ column ∷ unique ∷ cells) = do
    no_trailing (codes "history index row for " ++ quoted (dotted table name)) cells
    known_table (codes "index") table tables
    parsed ←
        parse_flag
          (codes "history index "
            ++ (quoted (dotted table name) ++ codes " has invalid uniqueness flag "))
          unique
    ok (
        update_table table (push_index (record { name = name; column = column; unique = parsed }))
          tables)

  -- The row kind, `match kind { .. }`. A split text has one piece at least.
  pub parse_cells : List TableDef → List Text → Result S (List TableDef)
  unfolding table_row column_row index_row quoted
  parse_cells tables [] = ok tables
  parse_cells tables (kind ∷ cells) =
      if kind == codes "table"
      then table_row tables cells
      else if kind == codes "column"
      then column_row tables cells
      else if kind == codes "index"
      then index_row tables cells
      else err (schema_error (codes "history row has unknown record kind " ++ quoted kind))

  pub parse_line : List TableDef → Text → Result S (List TableDef)
  unfolding parse_cells
  parse_line tables line = if is_empty line then ok tables else parse_cells tables (split 9 line)

  pub parse_lines : List TableDef → List Text → Result S (List TableDef)
  unfolding parse_line
  parse_lines tables [] = ok tables
  parse_lines tables (line ∷ rest) = do tables' ← parse_line tables line; parse_lines tables' rest

  unfoldable pub from_canonical : Text → Result S SchemaDef
  unfolding parse_lines
  from_canonical input = do
    tables ← parse_lines [] (lines input)
    normalized (record { tables = tables })
