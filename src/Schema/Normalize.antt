-- ===== src/Schema/Normalize.antt =====
-- `SchemaDef::normalized` of src/schema/types.rs: sort everything by name, then refuse duplicate
-- names, a managed column that is the primary key, and an index over an unknown column.
pub mod Checks
pub mod Laws
pub mod Exact
use seekwel.Prelude.{
  Bool, true, false, not, ◌&&◌, List, [], ◌∷◌, map, ◌++◌, Text, codes, ◌==◌, le, any, if◌then◌else◌,
}
use seekwel.Prelude.Sorting.{sort_by}
use seekwel.Errors.{Error, invalid_schema, Result, ok, err, ◌>>=◌, ◌>>◌, guard}
use seekwel.Schema.Types.{PrimaryKeyDef, ColumnDef, IndexDef, TableDef, SchemaDef}

duplicate_table : Text → Text
duplicate_table name = codes "duplicate managed table `" ++ (name ++ codes "`")

duplicate_column : Text → Text → Text
duplicate_column table name =
    codes "duplicate column `" ++ (name ++ (codes "` in table `" ++ (table ++ codes "`")))

duplicate_primary_key : Text → Text → Text
duplicate_primary_key table name =
    codes "table `"
    ++ (table
        ++ (codes "` duplicates primary key column `" ++ (name ++ codes "` in managed columns")))

duplicate_index : Text → Text → Text
duplicate_index table name =
    codes "duplicate index `" ++ (name ++ (codes "` in table `" ++ (table ++ codes "`")))

unknown_index_column : Text → IndexDef → Text
unknown_index_column table index =
    codes "index `"
    ++ (index.name
        ++ (codes "` in table `"
            ++ (table ++ (codes "` references unknown column `" ++ (index.column ++ codes "`")))))

-- The order by name of the three `sort_by` calls.
abbrev pub by_name : {A : Type 0} → (A → Text) → A → A → Bool
by_name name a b = le (name a) (name b)

-- A table with its columns and indexes in the order of their names.
unfoldable pub sort_table : TableDef → TableDef
sort_table t = record t {
  columns = sort_by (by_name (λ (c : ColumnDef). c.name)) t.columns;
  indexes = sort_by (by_name (λ (i : IndexDef). i.name)) t.indexes;
}

-- The two loops that sort.
pub sorted_tables : List TableDef → List TableDef
unfolding sort_table
sorted_tables tables = map sort_table (sort_by (by_name (λ (t : TableDef). t.name)) tables)

module _ {S : Type 0} where
  -- `for pair in entries.windows(2) { if pair[0].name == pair[1].name { return Err(..) } }`
  pub no_duplicates : {A : Type 0} → (A → Text) → (Text → Error S) → List A → Result S (Unit {0})
  no_duplicates name error [] = ok tt
  no_duplicates name error (x ∷ []) = ok tt
  no_duplicates name error (x ∷ y ∷ rest) =
      if name x == name y then err (error (name x)) else no_duplicates name error (y ∷ rest)

  pub check_indexes : TableDef → List IndexDef → Result S (Unit {0})
  check_indexes t [] = ok tt
  check_indexes t (index ∷ rest) =
      if not (index.column == t.primary_key.name)
        && not (any (λ (c : ColumnDef). c.name == index.column) t.columns)
      then err (invalid_schema (unknown_index_column t.name index))
      else check_indexes t rest

  check_table : TableDef → Result S (Unit {0})
  check_table t = do
    no_duplicates (λ (c : ColumnDef). c.name) (λ n. invalid_schema (duplicate_column t.name n))
        t.columns
    guard (not (any (λ (c : ColumnDef). c.name == t.primary_key.name) t.columns))
        (invalid_schema (duplicate_primary_key t.name t.primary_key.name))
    no_duplicates (λ (i : IndexDef). i.name) (λ n. invalid_schema (duplicate_index t.name n))
        t.indexes
    check_indexes t t.indexes

  check_tables : List TableDef → Result S (Unit {0})
  check_tables [] = ok tt
  check_tables (t ∷ rest) = do check_table t; check_tables rest

  check_schema : List TableDef → Result S (Unit {0})
  check_schema tables = do
    no_duplicates (λ (t : TableDef). t.name) (λ n. invalid_schema (duplicate_table n)) tables
    check_tables tables

  unfoldable pub normalized : SchemaDef → Result S SchemaDef
  unfolding no_duplicates check_indexes check_table check_tables check_schema sorted_tables
      duplicate_table duplicate_column duplicate_primary_key duplicate_index unknown_index_column
  normalized s =
      let tables = sorted_tables s.tables in do check_schema tables; ok (record { tables = tables })
