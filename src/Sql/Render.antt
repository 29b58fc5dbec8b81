-- ===== src/Sql/Render.antt =====
-- src/sql/render.rs.
use seekwel.Prelude.{
  ℕ, zero, suc, ◌+◌, Option, none, some, Bool, List, [], ◌∷◌, ◌++◌, map, Text, codes, join,
  if◌then◌else◌,
}
use seekwel.Prelude.Decimal.{decimal}
use seekwel.Model.Types.{ColumnDef}

-- `?{index}`.
unfoldable pub placeholder : ℕ → Text
placeholder index = b'?' ∷ decimal index

not_null : Bool → Text
not_null nullable = if nullable then [] else codes " NOT NULL"

default_clause : Option Text → Text
default_clause none = []
default_clause (some sql) = codes " DEFAULT " ++ sql

column_definition : ColumnDef → Text
unfolding not_null default_clause
column_definition c =
    ((c.name ++ (codes " " ++ c.sql_type)) ++ not_null c.nullable) ++ default_clause c.default_sql

unfoldable pub column_definitions : List ColumnDef → Text
unfolding column_definition
column_definitions columns = join (codes ", ") (map column_definition columns)

unfoldable pub column_names : List ColumnDef → Text
column_names columns = join (codes ", ") (map (λ (c : ColumnDef). c.name) columns)

-- `(start_at..start_at + count).map(|index| format!("?{index}"))`
unfoldable pub placeholder_list : ℕ → ℕ → List Text
placeholder_list zero start_at = []
placeholder_list (suc count) start_at = placeholder start_at ∷ placeholder_list count (start_at + 1)

unfoldable pub placeholders : ℕ → ℕ → Text
placeholders count start_at = join (codes ", ") (placeholder_list count start_at)

unfoldable pub assignment_list : List ColumnDef → ℕ → List Text
assignment_list [] start_at = []
assignment_list (c ∷ columns) start_at =
    (c.name ++ (codes " = " ++ placeholder start_at)) ∷ assignment_list columns (start_at + 1)

unfoldable pub assignments : List ColumnDef → ℕ → Text
assignments columns start_at = join (codes ", ") (assignment_list columns start_at)

unfoldable pub select_columns : Text → List ColumnDef → Text
select_columns primary_key_name columns =
    join (codes ", ") (primary_key_name ∷ map (λ (c : ColumnDef). c.name) columns)
