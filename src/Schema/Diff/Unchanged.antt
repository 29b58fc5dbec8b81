-- ===== src/Schema/Diff/Unchanged.antt =====
-- A plan towards the schema that the database has.
use seekwel.Prelude.{
  ◌≡◌, refl, ap, subst, Bool, true, false, Option, none, some, List, [], ◌∷◌, map, Text, eq_refl,
  All,
}
use seekwel.Prelude.Sorting.{sort_by}
use seekwel.Prelude.Maps.{TreeMap, get, contains_key}
use seekwel.Errors.{ok}
use seekwel.Schema.Types.{PrimaryKeyDef, ColumnDef, IndexDef, TableDef}
use seekwel.Schema.Affinity.{
  SqlAffinity, integer, real, text, blob, numeric, from_declared_type, same_affinity,
}
use seekwel.Schema.Normalize.Laws.{IsNormal, IsNormalTable, normalized_of_IsNormal}
use seekwel.Schema.Names.{Ascending}
use seekwel.Schema.Diff.{
  ActualTable, same_bool, same_default, key_reasons, column_reasons, column_changes, missing_keys,
  removal_reasons, wanted_indexes, unwanted_indexes, columns_by_name, indexes_by_name,
  rebuild_reasons, diff_table, diff_tables, drop_tables, diff_parts, diff,
}
use seekwel.Schema.Diff.Lookup.{tag, insert_all_of_Ascending, get-tag}

pub same_affinity_refl : (a : SqlAffinity) → same_affinity a a ≡ true
unfolding same_affinity
same_affinity_refl integer = refl
same_affinity_refl real = refl
same_affinity_refl text = refl
same_affinity_refl blob = refl
same_affinity_refl numeric = refl

same_bool_refl : (b : Bool) → same_bool b b ≡ true
unfolding same_bool
same_bool_refl true = refl
same_bool_refl false = refl

same_default_refl : (d : Option Text) → same_default d d ≡ true
unfolding same_default
same_default_refl none = refl
same_default_refl (some d) = eq_refl d

column_reasons_refl : (name : Text) (c : ColumnDef) → column_reasons name c c ≡ []
unfolding column_reasons
column_reasons_refl name c = rw (
  same_affinity_refl (from_declared_type c.sql_type),
  same_bool_refl c.nullable,
  same_default_refl c.default_sql,
)

key_reasons_refl : (k : PrimaryKeyDef) → key_reasons k k ≡ []
unfolding key_reasons
key_reasons_refl k =
    rw (eq_refl k.name, same_affinity_refl (from_declared_type k.sql_type), eq_refl k.sql_type)

-- Every entry of a list is found in a map under its name.
abbrev Found : {A : Type 0} → (A → Text) → TreeMap A → List A → Type 0
Found key m vs = All (λ v. get m (key v) ≡ some v) vs

column_changes-same :
    (table : Text) (m : TreeMap ColumnDef) (cs : List ColumnDef)
    → Found (λ (c : ColumnDef). c.name) m cs
    → column_changes table m (tag (λ (c : ColumnDef). c.name) cs)
      ≡ record { additions = []; reasons = []; refusals = [] }
unfolding column_changes
column_changes-same table m [] h = refl
column_changes-same table m (c ∷ cs) h =
    rw (column_changes, h.0, column_changes-same table m cs h.1, column_reasons_refl c.name c)

missing_keys-Found :
    {A : Type 0} (key : A → Text) (m : TreeMap A) (vs : List A)
    → Found key m vs
    → missing_keys (tag key vs) m ≡ []
unfolding missing_keys contains_key
missing_keys-Found key m [] h = refl
missing_keys-Found key m (v ∷ vs) h = rw (h.0, missing_keys-Found key m vs h.1)

wanted_indexes-same :
    (table : Text) (m : TreeMap IndexDef) (is : List IndexDef)
    → Found (λ (i : IndexDef). i.name) m is
    → wanted_indexes table m (tag (λ (i : IndexDef). i.name) is) ≡ []
unfolding wanted_indexes
wanted_indexes-same table m [] h = refl
wanted_indexes-same table m (i ∷ is) h = rw (
  wanted_indexes,
  h.0,
  eq_refl i.column,
  same_bool_refl i.unique,
  wanted_indexes-same table m is h.1,
)

unwanted_indexes-Found :
    (table : Text) (m : TreeMap IndexDef) (is : List IndexDef)
    → Found (λ (i : IndexDef). i.name) m is
    → unwanted_indexes table m (tag (λ (i : IndexDef). i.name) is) ≡ []
unfolding unwanted_indexes contains_key
unwanted_indexes-Found table m [] h = refl
unwanted_indexes-Found table m (i ∷ is) h = rw (h.0, unwanted_indexes-Found table m is h.1)

rebuild_reasons-same :
    (name : Text) (a : ActualTable) → IsNormalTable a.table → rebuild_reasons name a.table a ≡ []
unfolding rebuild_reasons columns_by_name removal_reasons
rebuild_reasons-same name a h =
    let cs = a.table.columns in
    let found = get-tag (λ (c : ColumnDef). c.name) cs h.columns in
    rw (
      insert_all_of_Ascending (λ (c : ColumnDef). c.name) cs h.columns,
      key_reasons_refl a.table.primary_key,
      column_changes-same name (tag (λ (c : ColumnDef). c.name) cs) cs found,
      missing_keys-Found (λ (c : ColumnDef). c.name) (tag (λ (c : ColumnDef). c.name) cs) cs found,
    )

diff_table-same :
    (name : Text) (a : ActualTable) → IsNormalTable a.table → diff_table name a.table a ≡ ([], [])
unfolding diff_table columns_by_name indexes_by_name sort_by
diff_table-same name a h =
    let cs = a.table.columns in
    let is = a.table.indexes in
    let found = get-tag (λ (c : ColumnDef). c.name) cs h.columns in
    let found_i = get-tag (λ (i : IndexDef). i.name) is h.indexes in
    rw (
      rebuild_reasons-same name a h,
      insert_all_of_Ascending (λ (c : ColumnDef). c.name) cs h.columns,
      insert_all_of_Ascending (λ (i : IndexDef). i.name) is h.indexes,
      column_changes-same name (tag (λ (c : ColumnDef). c.name) cs) cs found,
      wanted_indexes-same name (tag (λ (i : IndexDef). i.name) is) is found_i,
      unwanted_indexes-Found name (tag (λ (i : IndexDef). i.name) is) is found_i,
    )

-- The live tables, each under its name.
abbrev pub live_tables : List ActualTable → TreeMap ActualTable
live_tables = tag (λ (a : ActualTable). a.table.name)

abbrev pub tables_of : List ActualTable → List TableDef
tables_of = map (λ (a : ActualTable). a.table)

diff_tables-same :
    (m : TreeMap ActualTable) (live : List ActualTable)
    → Found (λ (a : ActualTable). a.table.name) m live
    → All IsNormalTable (tables_of live)
    → diff_tables m (tag (λ (t : TableDef). t.name) (tables_of live)) ≡ ([], [])
unfolding diff_tables
diff_tables-same m [] f h = refl
diff_tables-same m (a ∷ live) f h =
    rw (diff_tables, f.0, diff_table-same a.table.name a h.0, diff_tables-same m live f.1 h.1)

drop_tables-Found :
    (m : TreeMap TableDef) (live : List ActualTable)
    → Found (λ (t : TableDef). t.name) m (tables_of live)
    → drop_tables m (live_tables live) ≡ ([], [])
unfolding drop_tables contains_key
drop_tables-Found m [] f = refl
drop_tables-Found m (a ∷ live) f = rw (f.0, drop_tables-Found m live f.1)

map-live_tables :
    (live : List ActualTable)
    → map (λ (e : Text × ActualTable). e.1.table) (live_tables live) ≡ tables_of live
map-live_tables [] = refl
map-live_tables (a ∷ live) = ap (◌∷◌ a.table) (map-live_tables live)

map-tables_of :
    (live : List ActualTable)
    → map (λ (t : TableDef). t.name) (tables_of live) ≡ map (λ (a : ActualTable). a.table.name) live
map-tables_of [] = refl
map-tables_of (a ∷ live) = ap (◌∷◌ a.table.name) (map-tables_of live)

-- Where the desired schema is the one that the database has, in normal form, the difference has no
-- operation and no blocker, whatever depends on the live tables.
pub diff_unchanged :
    {S : Type 0} (live : List ActualTable)
    → IsNormal (record { tables = tables_of live })
    → diff {S = S} (record { tables = tables_of live }) (live_tables live)
      ≡ ok (record { source = record { tables = tables_of live }; ops = []; blockers = [] })
unfolding diff diff_parts sort_by
diff_unchanged live h =
    let names = subst Ascending (map-tables_of live) h.tables in
    rw (
      map-live_tables live,
      normalized_of_IsNormal (record { tables = tables_of live }) h,
      insert_all_of_Ascending (λ (t : TableDef). t.name) (tables_of live) h.tables,
      diff_tables-same (live_tables live) live
          (get-tag (λ (a : ActualTable). a.table.name) live names) h.each,
      drop_tables-Found (tag (λ (t : TableDef). t.name) (tables_of live)) live
          (get-tag (λ (t : TableDef). t.name) (tables_of live) h.tables),
    )
