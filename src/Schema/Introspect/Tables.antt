-- ===== src/Schema/Introspect/Tables.antt =====
-- `introspect_managed` of src/schema/introspect.rs.
use seekwel.Prelude.{
  ℕ, Bool, true, false, not, ◌||◌, Option, none, some, List, [], ◌∷◌, ◌++◌, Text, codes, ◌==◌,
  length, ltb, if◌then◌else◌,
}
use seekwel.Prelude.Maps.{TreeMap, insert_entry}
use seekwel.Errors
use seekwel.Errors.{Result, ok, err}
use seekwel.Connection.Value.{text, double}
use seekwel.Connection.Act.{
  Sqlite, Act, ◌>>=◌, lift, pure, panic, branch, query_rows, query_all, query_optional,
}
use seekwel.Schema.Types.{history_table, IndexDef}
use seekwel.Schema.Diff.{ActualTable}
use seekwel.Schema.Introspect.Identifiers.{is_managed_index_name}
use seekwel.Schema.Introspect.Rows.{
  ColumnRow, IndexRow, ReplayKind, ReplaySqlWithTable, column_row, index_row, column_names_of,
  group_replays, kind_of,
}
use seekwel.Prelude.Search.{eq_ignore_ascii_case}
use seekwel.Schema.Introspect.Actual.{actual_table}

unfoldable pub pragma_string_arg : Text → Text
pragma_string_arg identifier = 39 ∷ (double 39 identifier ++ 39 ∷ [])

module _ {S R Row D : Type 0} (sqlite : Sqlite S R Row D) where
  abbrev pub pragma : Text → Text → Act S D (List (Result S Row))
  pragma name arg =
      query_rows sqlite (codes "PRAGMA " ++ (name ++ (codes "(" ++ (arg ++ codes ")")))) []

  unfoldable pub table_sql : Text → Act S D (Option Text)
  table_sql name =
      query_optional sqlite
        (codes "SELECT sql FROM sqlite_schema WHERE type = 'table' AND name = ?1") (text name ∷ [])
        (sqlite.optional_text_at 0)
      >>= λ found. pure (elim found [ none ↦ none | some sql ↦ sql ])

  unfoldable pub table_columns : Text → Act S D (List ColumnRow)
  table_columns name =
      query_all sqlite (codes "PRAGMA table_xinfo(" ++ (pragma_string_arg name ++ codes ")")) []
        (column_row sqlite)

  unfoldable pub index_columns : Text → Act S D (List Text)
  index_columns name = pragma (codes "index_info") (pragma_string_arg name) >>= λ rows.
      lift (column_names_of sqlite rows)

  -- An index counts if it has one column with a name.
  push_index : IndexRow → List Text → List IndexDef → List IndexDef
  push_index row (column ∷ []) indexes =
      (record { name = row.name; column = column; unique = row.unique }) ∷ indexes
  push_index row _ indexes = indexes

  unfoldable pub index_loop : List (Result S Row) → Act S D (List IndexDef)
  unfolding push_index
  index_loop [] = pure []
  index_loop (r ∷ rows) =
      let rest = index_loop rows in
      lift r >>= λ raw. lift (index_row sqlite raw) >>= λ row.
      branch (not (is_managed_index_name row.name) || row.partial) rest (
        index_columns row.name >>= λ columns.
        rest >>= λ indexes. pure (push_index row columns indexes))

  unfoldable pub table_indexes : Text → Act S D (List IndexDef)
  unfolding index_loop
  table_indexes name = pragma (codes "index_list") (pragma_string_arg name) >>= index_loop

  unfoldable pub replayable_objects : Act S D (TreeMap (List Text))
  replayable_objects =
      query_rows sqlite
        (codes
          "SELECT name, type, tbl_name, sql FROM sqlite_schema WHERE type IN ('index', 'trigger') AND sql IS NOT NULL")
        []
      >>= λ rows. lift (group_replays sqlite [] rows)

  -- Another kind than those of the query panics.
  unfoldable pub known_kind : Option ReplayKind → Act S D ReplayKind
  known_kind none = panic
  known_kind (some kind) = pure kind

  unfoldable pub candidate_loop : List (Result S Row) → Act S D (List ReplaySqlWithTable)
  candidate_loop [] = pure []
  candidate_loop (r ∷ rows) = do
    row ← lift r
    name ← lift (sqlite.text_at 0 row)
    kind_text ← lift (sqlite.text_at 1 row)
    kind ← known_kind (kind_of kind_text)
    table ← lift (sqlite.text_at 2 row)
    sql ← lift (sqlite.text_at 3 row)
    rest ← candidate_loop rows
    pure ((record { name = name; kind = kind; tbl_name = table; sql = sql }) ∷ rest)

  unfoldable pub dependency_candidates : Act S D (List ReplaySqlWithTable)
  unfolding candidate_loop
  dependency_candidates =
      query_rows sqlite
        (codes
          "SELECT name, type, tbl_name, sql FROM sqlite_schema WHERE type IN ('view', 'trigger') AND sql IS NOT NULL")
        []
      >>= candidate_loop

  unfoldable pub user_tables : Act S D (List Text)
  user_tables =
      query_all sqlite
        (codes
          "SELECT name FROM sqlite_schema WHERE type = 'table' AND name NOT LIKE 'sqlite_%' AND name != ?1")
        (text history_table ∷ []) (sqlite.text_at 0)

  unfoldable pub foreign_key_count : Text → Act S D ℕ
  foreign_key_count name =
      pragma (codes "foreign_key_list") (pragma_string_arg name) >>= λ rows. pure (length rows)

  -- Whether a row names the table, up to the first one that does or fails.
  names_table : Text → List (Result S Row) → Result S Bool
  unfolding eq_ignore_ascii_case
  names_table table [] = ok false
  names_table table (row ∷ rows) =
      let rest = names_table table rows in
      Errors.◌>>=◌ (Errors.◌>>=◌ row (sqlite.text_at 2))
        λ other. if eq_ignore_ascii_case other table then ok true else rest

  unfoldable pub foreign_loop : Text → List Text → Act S D Bool
  unfolding names_table
  foreign_loop table [] = pure false
  foreign_loop table (other ∷ others) =
      let rest = foreign_loop table others in
      branch (other == table) rest (
        pragma (codes "foreign_key_list") (pragma_string_arg other) >>= λ rows.
        lift (names_table table rows) >>= λ found. branch found (pure true) rest)

  unfoldable pub has_real_foreign_keys : Text → List Text → Act S D Bool
  unfolding foreign_loop
  has_real_foreign_keys name all_tables = foreign_key_count name >>= λ count.
      branch (ltb 0 count) (pure true) (foreign_loop name all_tables)

  -- What the loop does for one table: a table that does not exist adds nothing.
  unfoldable pub table_of :
      TreeMap (List Text)
      → List ReplaySqlWithTable
      → List Text
      → Text
      → Option Text
      → TreeMap ActualTable
      → Act S D (TreeMap ActualTable)
  table_of replayables candidates all_tables name none tables = pure tables
  table_of replayables candidates all_tables name (some sql) tables = do
    rows ← table_columns name
    indexes ← table_indexes name
    foreign ← has_real_foreign_keys name all_tables
    pure (
        insert_entry name (actual_table name sql rows indexes replayables candidates foreign)
          tables)

  unfoldable pub table_loop :
      TreeMap (List Text)
      → List ReplaySqlWithTable
      → List Text
      → List Text
      → TreeMap ActualTable
      → Act S D (TreeMap ActualTable)
  unfolding table_of
  table_loop replayables candidates all_tables [] tables = pure tables
  table_loop replayables candidates all_tables (name ∷ names) tables = do
    found ← table_sql name
    tables' ← table_of replayables candidates all_tables name found tables
    table_loop replayables candidates all_tables names tables'

  unfoldable pub introspect_managed : List Text → Act S D (TreeMap ActualTable)
  unfolding table_loop
  introspect_managed table_names = do
    replayables ← replayable_objects
    candidates ← dependency_candidates
    all_tables ← user_tables
    table_loop replayables candidates all_tables table_names []
