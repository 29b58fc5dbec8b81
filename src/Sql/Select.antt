-- ===== src/Sql/Select.antt =====
-- src/sql/select.rs.
use seekwel.Prelude.{
  ℕ, ◌&&◌, not, Option, none, some, List, [], ◌++◌, map, Text, codes, join, if◌then◌else◌, is_empty,
  is_some,
}
use seekwel.Prelude.Decimal.{decimal}
use seekwel.Model.Types.{ColumnDef, PrimaryKeyDef}
use seekwel.Sql.Render.{select_columns}

pub data OrderDirection : Type 0 where
  asc desc : OrderDirection

pub data OrderTerm : Type 0 where
  column : Text → OrderDirection → OrderTerm
  raw : Text → OrderTerm

direction_sql : OrderDirection → Text
direction_sql asc = codes "ASC"
direction_sql desc = codes "DESC"

unfoldable pub order_term_sql : OrderTerm → Text
unfolding direction_sql
order_term_sql (column name direction) = name ++ (codes " " ++ direction_sql direction)
order_term_sql (raw sql) = sql

unfoldable pub order_by_clause : List OrderTerm → Option Text
order_by_clause ordering =
    if is_empty ordering then none else some (join (codes ", ") (map order_term_sql ordering))

pub data Projection : Type 0 where
  model_columns : Text → List ColumnDef → Projection
  count_all one : Projection

unfoldable pub projection_sql : Projection → Text
projection_sql (model_columns primary_key_name columns) = select_columns primary_key_name columns
projection_sql count_all = codes "COUNT(*)"
projection_sql one = codes "1"

pub record Select : Type 0 where
  pub projection : Projection
  pub table_name : Text
  pub clause : Option Text
  pub order_clause : Option Text
  pub limit : Option ℕ
  pub offset : Option ℕ

-- A part of the statement that is there only with a value.
abbrev optional : Text → Option Text → Text
optional keyword none = []
optional keyword (some text) = keyword ++ text

limit_sql : Option ℕ → Option ℕ → Text
limit_sql (some limit) offset = codes " LIMIT " ++ decimal limit
limit_sql none none = []
limit_sql none (some offset) = codes " LIMIT -1"

offset_sql : Option ℕ → Text
offset_sql none = []
offset_sql (some offset) = codes " OFFSET " ++ decimal offset

unfoldable pub append_limit_offset : Text → Option ℕ → Option ℕ → Text
unfolding limit_sql offset_sql
append_limit_offset query limit offset = query ++ (limit_sql limit offset ++ offset_sql offset)

-- `Select::to_sql` before its limit and offset.
unfoldable pub select_body : Select → Text
select_body s =
    (codes "SELECT " ++ (projection_sql s.projection ++ (codes " FROM " ++ s.table_name)))
    ++ (optional (codes " WHERE ") s.clause ++ optional (codes " ORDER BY ") s.order_clause)

unfoldable pub select_sql : Select → Text
select_sql s = append_limit_offset (select_body s) s.limit s.offset

unfoldable pub count_sql : Select → Text
count_sql s =
    if not (is_some s.limit) && not (is_some s.offset)
    then select_sql (record s { projection = count_all; order_clause = none })
    else codes "SELECT COUNT(*) FROM ("
      ++ (select_sql (record s { projection = one }) ++ codes ") AS seekwel_count")

unfoldable pub select_by_primary_key : Text → PrimaryKeyDef → List ColumnDef → Text
select_by_primary_key table_name primary_key columns = select_sql (record {
  projection = model_columns primary_key.name columns;
  table_name = table_name;
  clause = some (primary_key.name ++ codes " = ?1");
  order_clause = none;
  limit = none;
  offset = none;
})
