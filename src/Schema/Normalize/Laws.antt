-- ===== src/Schema/Normalize/Laws.antt =====
-- What `SchemaDef::normalized` guarantees of a schema that it accepts, and of one that is in
-- normal form already.
use seekwel.Prelude.{◌≡◌, ◌≢◌, refl, ap, ◌∙◌, false, List, [], ◌∷◌, map, arith, ◌==◌, any, All, ◌⊎◌}
use seekwel.Prelude.Sorting.{sort_by, IsSorted, sort_by-IsSorted, sort_by_of_IsSorted}
use seekwel.Errors.{invalid_schema, ok, >>=-eq-ok}
use seekwel.Schema.Types.{ColumnDef, IndexDef, TableDef, SchemaDef}
use seekwel.Schema.Names.{Ascending, Any}
use seekwel.Schema.Normalize.{
  by_name, sort_table, sorted_tables, no_duplicates, check_indexes, check_table, check_tables,
  check_schema, normalized, duplicate_column, duplicate_index, duplicate_table,
}
use seekwel.Schema.Normalize.Checks.{
  by_name-total, Ascending-IsSorted, any-apart, apart-any, no_duplicates-Ascending,
  Ascending-no_duplicates, check_indexes_inv, known-check_indexes,
}

-- A table in normal form.
pub record IsNormalTable (t : TableDef) : Type 0 where
  pub columns : Ascending (map (λ (c : ColumnDef). c.name) t.columns)
  pub apart : All (λ (c : ColumnDef). c.name ≢ t.primary_key.name) t.columns
  pub indexes : Ascending (map (λ (i : IndexDef). i.name) t.indexes)
  pub known :
      All
        (λ (i : IndexDef).
          (i.column ≡ t.primary_key.name) ⊎ Any (λ (c : ColumnDef). c.name ≡ i.column) t.columns)
        t.indexes

pub record IsNormal (s : SchemaDef) : Type 0 where
  pub tables : Ascending (map (λ (t : TableDef). t.name) s.tables)
  pub each : All IsNormalTable s.tables

module _ {S : Type 0} where
  check_table_parts :
      (t : TableDef)
      → check_table {S = S} t ≡ ok tt
      → (no_duplicates {S = S}
            (λ (c : ColumnDef). c.name)
            (λ n. invalid_schema (duplicate_column t.name n))
            t.columns
          ≡ ok tt)
        × (any (λ (c : ColumnDef). c.name == t.primary_key.name) t.columns ≡ false)
        × (no_duplicates {S = S}
              (λ (i : IndexDef). i.name)
              (λ n. invalid_schema (duplicate_index t.name n))
              t.indexes
            ≡ ok tt)
        × (check_indexes {S = S} t t.indexes ≡ ok tt)
  unfolding check_table
  check_table_parts t h = ground arith

  check_table-IsNormalTable :
      (t : TableDef)
      → IsSorted (by_name (λ (c : ColumnDef). c.name)) t.columns
      → IsSorted (by_name (λ (i : IndexDef). i.name)) t.indexes
      → check_table {S = S} t ≡ ok tt
      → IsNormalTable t
  unfolding check_table
  check_table-IsNormalTable t sc si h =
      let (a, b, c, d) = check_table_parts t h in
      record {
        columns = no_duplicates-Ascending (λ (c : ColumnDef). c.name) _ t.columns sc a;
        apart = any-apart (λ (c : ColumnDef). c.name) t.primary_key.name t.columns b;
        indexes = no_duplicates-Ascending (λ (i : IndexDef). i.name) _ t.indexes si c;
        known = check_indexes_inv t t.indexes d;
      }

  IsNormalTable-check_table : (t : TableDef) → IsNormalTable t → check_table {S = S} t ≡ ok tt
  unfolding check_table
  IsNormalTable-check_table t h = rw (
    Ascending-no_duplicates (λ (c : ColumnDef). c.name) _ t.columns h.columns,
    apart-any (λ (c : ColumnDef). c.name) t.primary_key.name t.columns h.apart,
    Ascending-no_duplicates (λ (i : IndexDef). i.name) _ t.indexes h.indexes,
    known-check_indexes t t.indexes h.known,
  )

  check_tables-each :
      (l : List TableDef)
      → check_tables {S = S} (map sort_table l) ≡ ok tt
      → All IsNormalTable (map sort_table l)
  unfolding check_tables
  check_tables-each [] h = tt
  check_tables-each (t ∷ l) h =
      let r = >>=-eq-ok (check_table (sort_table t)) _ h in
      (
        check_table-IsNormalTable (sort_table t)
            (unfold sort_table in
              sort_by-IsSorted _ (by_name-total (λ (c : ColumnDef). c.name)) t.columns)
            (unfold sort_table in
              sort_by-IsSorted _ (by_name-total (λ (i : IndexDef). i.name)) t.indexes)
            r.1,
        check_tables-each l r.2,
      )

  each-check_tables : (l : List TableDef) → All IsNormalTable l → check_tables {S = S} l ≡ ok tt
  unfolding check_tables
  each-check_tables [] h = refl
  each-check_tables (t ∷ l) h = rw (IsNormalTable-check_table t h.0, each-check_tables l h.1)

sort_table-name :
    (l : List TableDef)
    → map (λ (t : TableDef). t.name) (map sort_table l) ≡ map (λ (t : TableDef). t.name) l
unfolding sort_table
sort_table-name [] = refl
sort_table-name (t ∷ l) = rw (sort_table-name l)

IsSorted-sort_table :
    (l : List TableDef)
    → IsSorted (by_name (λ (t : TableDef). t.name)) l
    → IsSorted (by_name (λ (t : TableDef). t.name)) (map sort_table l)
unfolding sort_table
IsSorted-sort_table [] h = tt
IsSorted-sort_table (t ∷ []) h = tt
IsSorted-sort_table (t ∷ u ∷ l) h = (h.0, IsSorted-sort_table (u ∷ l) h.1)

sort_table_of_IsNormalTable : (t : TableDef) → IsNormalTable t → sort_table t ≡ t
unfolding sort_table
sort_table_of_IsNormalTable t h = rw (
  sort_by_of_IsSorted _ t.columns
      (Ascending-IsSorted (λ (c : ColumnDef). c.name) t.columns h.columns),
  sort_by_of_IsSorted _ t.indexes
      (Ascending-IsSorted (λ (i : IndexDef). i.name) t.indexes h.indexes),
)

map-sort_table_of_each : (l : List TableDef) → All IsNormalTable l → map sort_table l ≡ l
map-sort_table_of_each [] h = refl
map-sort_table_of_each (t ∷ l) h =
    rw (sort_table_of_IsNormalTable t h.0, map-sort_table_of_each l h.1)

sorted_tables-IsSorted :
    (l : List TableDef) → IsSorted (by_name (λ (t : TableDef). t.name)) (sorted_tables l)
unfolding sorted_tables
sorted_tables-IsSorted l =
    IsSorted-sort_table (sort_by (by_name (λ (t : TableDef). t.name)) l)
      (sort_by-IsSorted _ (by_name-total (λ (t : TableDef). t.name)) l)

sorted_tables-each :
    {S : Type 0} (l : List TableDef)
    → check_tables {S = S} (sorted_tables l) ≡ ok tt
    → All IsNormalTable (sorted_tables l)
unfolding sorted_tables
sorted_tables-each l h = check_tables-each (sort_by (by_name (λ (t : TableDef). t.name)) l) h

-- What `normalized` accepts is in normal form.
pub normalized-IsNormal : {S : Type 0} (s t : SchemaDef) → normalized {S = S} s ≡ ok t → IsNormal t
unfolding normalized check_schema
normalized-IsNormal {S} s t h =
    let l = sorted_tables s.tables in
    let named : no_duplicates {S = S} (λ (t : TableDef). t.name)
          (λ n. invalid_schema (duplicate_table n)) l
        ≡ ok tt =
      ground arith in
    let checked : check_tables {S = S} l ≡ ok tt = ground arith in
    let same : t ≡ record { tables = l } = ground arith in
    rw same (record {
      tables =
          no_duplicates-Ascending (λ (t : TableDef). t.name) _ l (sorted_tables-IsSorted s.tables)
            named;
      each = sorted_tables-each s.tables checked;
    })

-- The result is the input sorted, and it is returned when that is in normal form.
pub normalized-sorted :
    {S : Type 0} (s t : SchemaDef)
    → normalized {S = S} s ≡ ok t
    → t ≡ record { tables = sorted_tables s.tables }
unfolding normalized
normalized-sorted s t h = ground arith

pub normalized_of_sorted :
    {S : Type 0} (s : SchemaDef)
    → IsNormal (record { tables = sorted_tables s.tables })
    → normalized {S = S} s ≡ ok (record { tables = sorted_tables s.tables })
unfolding normalized check_schema
normalized_of_sorted s h = rw (
  Ascending-no_duplicates (λ (t : TableDef). t.name) _ (sorted_tables s.tables) h.tables,
  each-check_tables (sorted_tables s.tables) h.each,
)

sorted_tables_of_IsNormal : (s : SchemaDef) → IsNormal s → sorted_tables s.tables ≡ s.tables
unfolding sorted_tables
sorted_tables_of_IsNormal s h = rw (
  sort_by_of_IsSorted _ s.tables (Ascending-IsSorted (λ (t : TableDef). t.name) s.tables h.tables),
  map-sort_table_of_each s.tables h.each,
)

-- A schema in normal form is its own normal form.
pub normalized_of_IsNormal : {S : Type 0} (s : SchemaDef) → IsNormal s → normalized {S = S} s ≡ ok s
normalized_of_IsNormal {S} s h =
    let e : record { tables = sorted_tables s.tables } ≡ s =
      ap (λ l. record { tables = l }) (sorted_tables_of_IsNormal s h) in
    normalized_of_sorted s (rw e h) ∙ ap ok e
