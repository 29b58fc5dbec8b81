-- ===== src/Schema/Normalize/Exact.antt =====
-- Which schemas `SchemaDef::normalized` accepts, and what it does to them.
use mathlib.Core.List.{Perm, Nodup, Nodup-cons, mem-cons_self, Mem}
use mathlib.Core.List.Perm
use seekwel.Prelude.{
  ◌≡◌, ◌≢◌, ◌↔◌, refl, sym, ◌∙◌, subst, List, [], ◌∷◌, map, Text, All, All-imp, inl, inr, ◌==◌,
  All-map, All_of,
}
use seekwel.Prelude.Sorting.{
  sort_by, IsSorted, sort_by-perm, sort_by-IsSorted, sort_by-All, sort_by-All_inv, map-sort_by-perm,
  any-sort_by,
}
use seekwel.Errors.{ok}
use seekwel.Schema.Types.{ColumnDef, IndexDef, TableDef, SchemaDef}
use seekwel.Schema.Names.{Ascending, Ascending-Nodup}
use seekwel.Schema.Normalize.{by_name, sort_table, sorted_tables, normalized}
use seekwel.Schema.Normalize.Checks.{IsKnown, by_name-total, any-Any, Any-any}
use seekwel.Schema.Normalize.Laws.{
  IsNormalTable, IsNormal, normalized-IsNormal, normalized-sorted, normalized_of_sorted,
}

-- No two columns and no two indexes of one name, no column with the primary key's name, and every
-- index over a column of the table.
pub record IsWellNamedTable (t : TableDef) : Type 0 where
  pub columns : Nodup (map (λ (c : ColumnDef). c.name) t.columns)
  pub apart : All (λ (c : ColumnDef). c.name ≢ t.primary_key.name) t.columns
  pub indexes : Nodup (map (λ (i : IndexDef). i.name) t.indexes)
  pub known : All (IsKnown t) t.indexes

pub record IsWellNamed (s : SchemaDef) : Type 0 where
  pub tables : Nodup (map (λ (t : TableDef). t.name) s.tables)
  pub each : All IsWellNamedTable s.tables

module _ {A : Type 0} (name : A → Text) where
  Nodup-Ascending :
      (xs : List A) → IsSorted (by_name name) xs → Nodup (map name xs) → Ascending (map name xs)
  Nodup-Ascending [] s h = tt
  Nodup-Ascending (x ∷ []) s h = tt
  Nodup-Ascending (x ∷ y ∷ rest) s h =
      let r = Nodup-cons.0 h in
      (
        s.0,
        (λ e. r.0 (subst (λ n. Mem (name x) (n ∷ map name rest)) e mem-cons_self)),
        Nodup-Ascending (y ∷ rest) s.1 r.1,
      )

  sorted-Ascending :
      (xs : List A) → Nodup (map name xs) → Ascending (map name (sort_by (by_name name) xs))
  sorted-Ascending xs h =
      Nodup-Ascending (sort_by (by_name name) xs) (sort_by-IsSorted _ (by_name-total name) xs)
        (Perm.nodup (Perm.symm (map-sort_by-perm (by_name name) name xs)) h)

  Ascending-unsorted :
      (xs : List A) → Ascending (map name (sort_by (by_name name) xs)) → Nodup (map name xs)
  Ascending-unsorted xs h =
      Perm.nodup (map-sort_by-perm (by_name name) name xs) (Ascending-Nodup _ h)

sort_table-IsKnown : (t : TableDef) (i : IndexDef) → IsKnown t i ↔ IsKnown (sort_table t) i
unfolding sort_table
sort_table-IsKnown t i = (there, back)
  where
    name : ColumnDef → Text
    name c = c.name

    there : IsKnown t i → IsKnown (sort_table t) i
    there (inl e) = inl e
    there (inr k) = inr (
        any-Any name i.column _ (
          any-sort_by (by_name name) (λ c. name c == i.column) t.columns
          ∙ Any-any name i.column t.columns k))

    back : IsKnown (sort_table t) i → IsKnown t i
    back (inl e) = inl e
    back (inr k) = inr (
        any-Any name i.column _ (
          sym (any-sort_by (by_name name) (λ c. name c == i.column) t.columns)
          ∙ Any-any name i.column _ k))

sort_table-IsNormalTable : (t : TableDef) → IsWellNamedTable t → IsNormalTable (sort_table t)
unfolding sort_table
sort_table-IsNormalTable t h = record {
  columns = sorted-Ascending (λ (c : ColumnDef). c.name) t.columns h.columns;
  apart = sort_by-All _ _ t.columns h.apart;
  indexes = sorted-Ascending (λ (i : IndexDef). i.name) t.indexes h.indexes;
  known =
      sort_by-All _ (IsKnown (sort_table t)) t.indexes
        (All-imp t.indexes (λ i. (sort_table-IsKnown t i).0) h.known);
}

sort_table-IsWellNamedTable : (t : TableDef) → IsNormalTable (sort_table t) → IsWellNamedTable t
unfolding sort_table
sort_table-IsWellNamedTable t h = record {
  columns = Ascending-unsorted (λ (c : ColumnDef). c.name) t.columns h.columns;
  apart = sort_by-All_inv _ _ t.columns h.apart;
  indexes = Ascending-unsorted (λ (i : IndexDef). i.name) t.indexes h.indexes;
  known =
      All-imp t.indexes (λ i. (sort_table-IsKnown t i).1)
        (sort_by-All_inv _ (IsKnown (sort_table t)) t.indexes h.known);
}

sort_table-names :
    (l : List TableDef)
    → map (λ (t : TableDef). t.name) (map sort_table l) ≡ map (λ (t : TableDef). t.name) l
unfolding sort_table
sort_table-names [] = refl
sort_table-names (t ∷ l) = rw (sort_table-names l)

IsWellNamed-IsNormal :
    (s : SchemaDef) → IsWellNamed s → IsNormal (record { tables = sorted_tables s.tables })
unfolding sorted_tables
IsWellNamed-IsNormal s h = record {
  tables = rw sort_table-names (sorted-Ascending (λ (t : TableDef). t.name) s.tables h.tables);
  each =
      (All-map IsNormalTable sort_table _).0
        (sort_by-All _ _ s.tables (All-imp s.tables sort_table-IsNormalTable h.each));
}

IsNormal-IsWellNamed :
    (s : SchemaDef) → IsNormal (record { tables = sorted_tables s.tables }) → IsWellNamed s
unfolding sorted_tables
IsNormal-IsWellNamed s h = record {
  tables = Ascending-unsorted (λ (t : TableDef). t.name) s.tables (rw sort_table-names at h.tables);
  each =
      All-imp s.tables sort_table-IsWellNamedTable
        (sort_by-All_inv _ _ s.tables ((All-map IsNormalTable sort_table _).1 h.each));
}

sort_table-parts :
    (u : TableDef)
    → ((sort_table u).name ≡ u.name)
      × ((sort_table u).primary_key ≡ u.primary_key)
      × Perm (sort_table u).columns u.columns
      × Perm (sort_table u).indexes u.indexes
unfolding sort_table
sort_table-parts u = (refl, refl, sort_by-perm _ u.columns, sort_by-perm _ u.indexes)

-- `normalized` accepts exactly the well-named schemas.
pub normalized_iff :
    {S : Type 0} (s : SchemaDef) → ((t : SchemaDef) × (normalized {S = S} s ≡ ok t)) ↔ IsWellNamed s
normalized_iff {S} s = (there, back)
  where
    there : (t : SchemaDef) × (normalized {S = S} s ≡ ok t) → IsWellNamed s
    there (t, e) =
        let n : IsNormal (record { tables = sorted_tables s.tables }) =
          subst IsNormal (normalized-sorted s t e) (normalized-IsNormal s t e) in
        IsNormal-IsWellNamed s n

    back : IsWellNamed s → (t : SchemaDef) × (normalized {S = S} s ≡ ok t)
    back h = (_, normalized_of_sorted s (IsWellNamed-IsNormal s h))

-- What `normalized` returns has the tables that it was given, each with its name, its primary key
-- and, in another order, its columns and indexes.
pub normalized-perm :
    {S : Type 0} (s t : SchemaDef)
    → normalized {S = S} s ≡ ok t
    → Perm t.tables (map sort_table s.tables)
      × All
          (λ (u : TableDef).
            ((sort_table u).name ≡ u.name)
            × ((sort_table u).primary_key ≡ u.primary_key)
            × Perm (sort_table u).columns u.columns
            × Perm (sort_table u).indexes u.indexes)
          s.tables
unfolding sorted_tables
normalized-perm s t h = (
  rw (normalized-sorted s t h) (map-sort_by-perm _ sort_table s.tables),
  All_of s.tables sort_table-parts,
)
