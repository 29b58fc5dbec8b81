-- ===== src/Schema/Introspect/Reading.antt =====
-- Reading the live tables changes nothing.
use seekwel.Prelude.{Option, none, some, List, [], ◌∷◌, Text}
use seekwel.Prelude.Maps.{TreeMap}
use seekwel.Errors.{Result}
use seekwel.Connection.Act.{Sqlite, Act}
use seekwel.Connection.Act.Reading.{
  ReadsOnly, reading, query_rows-ReadsOnly, query_all-ReadsOnly, query_optional-ReadsOnly,
}
use seekwel.Schema.Diff.{ActualTable}
use seekwel.Schema.Introspect.Rows.{ReplayKind, ReplaySqlWithTable}
use seekwel.Schema.Introspect.Tables.{
  table_sql, table_columns, index_columns, index_loop, table_indexes, replayable_objects,
  known_kind, candidate_loop, dependency_candidates, user_tables, foreign_key_count, foreign_loop,
  has_real_foreign_keys, table_of, table_loop, introspect_managed,
}

module _ {S R Row D : Type 0} (sqlite : Sqlite S R Row D) where
  abbrev Reads : {A : Type 0} → Act S D A → Type 0
  Reads m = ReadsOnly m

  index_columns-ReadsOnly : (name : Text) → Reads (index_columns sqlite name)
  unfolding index_columns
  index_columns-ReadsOnly name = search (reading, query_rows-ReadsOnly)

  index_loop-ReadsOnly : (rows : List (Result S Row)) → Reads (index_loop sqlite rows)
  unfolding index_loop
  index_loop-ReadsOnly [] = search reading
  index_loop-ReadsOnly (r ∷ rows) =
      search (reading, index_columns-ReadsOnly, index_loop-ReadsOnly rows) depth 8

  known_kind-ReadsOnly : (kind : Option ReplayKind) → Reads (known_kind sqlite kind)
  unfolding known_kind
  known_kind-ReadsOnly none = search reading
  known_kind-ReadsOnly (some kind) = search reading

  candidate_loop-ReadsOnly : (rows : List (Result S Row)) → Reads (candidate_loop sqlite rows)
  unfolding candidate_loop
  candidate_loop-ReadsOnly [] = search reading
  candidate_loop-ReadsOnly (r ∷ rows) =
      search (reading, known_kind-ReadsOnly, candidate_loop-ReadsOnly rows) depth 10

  foreign_loop-ReadsOnly :
      (table : Text) (others : List Text) → Reads (foreign_loop sqlite table others)
  unfolding foreign_loop
  foreign_loop-ReadsOnly table [] = search reading
  foreign_loop-ReadsOnly table (other ∷ others) =
      search (reading, query_rows-ReadsOnly, foreign_loop-ReadsOnly table others)

  has_real_foreign_keys-ReadsOnly :
      (table : Text) (all_tables : List Text)
      → Reads (has_real_foreign_keys sqlite table all_tables)
  unfolding has_real_foreign_keys foreign_key_count
  has_real_foreign_keys-ReadsOnly table all_tables =
      search (reading, query_rows-ReadsOnly, foreign_loop-ReadsOnly)

  table_indexes-ReadsOnly : (name : Text) → Reads (table_indexes sqlite name)
  unfolding table_indexes
  table_indexes-ReadsOnly name = search (reading, query_rows-ReadsOnly, index_loop-ReadsOnly)

  table_sql-ReadsOnly : (name : Text) → Reads (table_sql sqlite name)
  unfolding table_sql
  table_sql-ReadsOnly name = search (reading, query_optional-ReadsOnly)

  table_columns-ReadsOnly : (name : Text) → Reads (table_columns sqlite name)
  unfolding table_columns
  table_columns-ReadsOnly name = search (reading, query_all-ReadsOnly)

  module _ (replayables : TreeMap (List Text)) (candidates : List ReplaySqlWithTable)
      (all_tables : List Text) where
    table_of-ReadsOnly :
        (name : Text) (found : Option Text) (tables : TreeMap ActualTable)
        → Reads (table_of sqlite replayables candidates all_tables name found tables)
    unfolding table_of
    table_of-ReadsOnly name none tables = search reading
    table_of-ReadsOnly name (some sql) tables =
        search (
          reading, table_columns-ReadsOnly, table_indexes-ReadsOnly,
          has_real_foreign_keys-ReadsOnly,
        )

    table_loop-ReadsOnly :
        (names : List Text) (tables : TreeMap ActualTable)
        → Reads (table_loop sqlite replayables candidates all_tables names tables)
    unfolding table_loop
    table_loop-ReadsOnly [] tables = search reading
    table_loop-ReadsOnly (name ∷ names) tables =
        search (reading, table_sql-ReadsOnly, table_of-ReadsOnly, table_loop-ReadsOnly names)

  pub introspect_managed-ReadsOnly :
      (names : List Text) → ReadsOnly (introspect_managed sqlite names)
  unfolding introspect_managed replayable_objects dependency_candidates user_tables
  introspect_managed-ReadsOnly names = search (
    reading, query_rows-ReadsOnly, query_all-ReadsOnly, candidate_loop-ReadsOnly,
    table_loop-ReadsOnly,
  )
