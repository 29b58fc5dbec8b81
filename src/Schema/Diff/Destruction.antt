-- ===== src/Schema/Diff/Destruction.antt =====
-- When a difference has an operation that destroys data.
use seekwel.Prelude.{
  ◌≡◌, refl, sym, ap, ◌∙◌, Bool, false, not, ◌||◌, none, some, List, [], ◌∷◌, ◌++◌, map, Text, any,
  is_empty, arith, Bool-cases, Option-cases, inl, inr,
}
use seekwel.Prelude.Sorting.{sort_by, any-sort_by}
use seekwel.Prelude.Maps.{TreeMap, get, contains_key, insert_all}
use seekwel.Errors.{ok}
use seekwel.Schema.Types.{ColumnDef, IndexDef, TableDef, SchemaDef}
use seekwel.Schema.Normalize.{by_name}
use seekwel.Schema.Plan.{add_column, op_is_destructive}
use seekwel.Schema.Diff.Rebuilds.{table_differs, rebuild_reasons_iff}
use seekwel.Schema.Diff.Order.{diff_holds}
use seekwel.Schema.Diff.{
  le_op, ActualTable, DiffResult, rebuild_reasons, wanted_indexes, unwanted_indexes, diff_table,
  diff_tables, drop_tables, diff_parts, diff, column_changes, columns_by_name, indexes_by_name,
}

pub any-append :
    {A : Type 0} (p : A → Bool) (xs ys : List A) → any p (xs ++ ys) ≡ (any p xs || any p ys)
any-append p [] ys = refl
any-append p (x ∷ xs) ys = ground (arith, any-append p xs ys)

-- The desired tables of `diff`, under their names.
abbrev pub desired_tables : SchemaDef → TreeMap TableDef
desired_tables target = insert_all (λ (t : TableDef). t.name) target.tables []

-- The live table of the name, if there is one, differs from the desired one.
unfoldable pub needs_rebuild : TreeMap ActualTable → Text × TableDef → Bool
needs_rebuild actual (name, desired) = elim (get actual name) [
  | none ↦ false
  | some found ↦ table_differs desired found.table
]

add_column-safe :
    (name : Text) (cs : List ColumnDef) → any op_is_destructive (map (add_column name) cs) ≡ false
unfolding op_is_destructive
add_column-safe name [] = refl
add_column-safe name (c ∷ cs) = add_column-safe name cs

wanted_indexes-safe :
    (name : Text) (m l : TreeMap IndexDef) → any op_is_destructive (wanted_indexes name m l) ≡ false
unfolding op_is_destructive wanted_indexes
wanted_indexes-safe name m [] = refl
wanted_indexes-safe name m ((k, i) ∷ l) = ground (arith, wanted_indexes-safe name m l)

unwanted_indexes-safe :
    (name : Text) (m l : TreeMap IndexDef)
    → any op_is_destructive (unwanted_indexes name m l) ≡ false
unfolding op_is_destructive unwanted_indexes
unwanted_indexes-safe name m [] = refl
unwanted_indexes-safe name m ((k, i) ∷ l) = ground (arith, unwanted_indexes-safe name m l)

safe_ops :
    (name : Text) (cs : List ColumnDef) (m l m' l' : TreeMap IndexDef)
    → any op_is_destructive
        (map (add_column name) cs ++ (wanted_indexes name m l ++ unwanted_indexes name m' l'))
      ≡ false
safe_ops name cs m l m' l' = rw (
  any-append op_is_destructive (map (add_column name) cs)
      (wanted_indexes name m l ++ unwanted_indexes name m' l'),
  any-append op_is_destructive (wanted_indexes name m l) (unwanted_indexes name m' l'),
  add_column-safe name cs,
  wanted_indexes-safe name m l,
  unwanted_indexes-safe name m' l',
)

diff_table-destructive :
    (name : Text) (desired : TableDef) (found : ActualTable)
    → any op_is_destructive (diff_table name desired found).0
      ≡ not (is_empty (rebuild_reasons name desired found))
unfolding op_is_destructive diff_table
diff_table-destructive name desired found =
    elim (Bool-cases (is_empty (rebuild_reasons name desired found))) [
      | inl e ↦ rw e (
          safe_ops name
            (sort_by (by_name (λ (c : ColumnDef). c.name))
              (column_changes name (columns_by_name found.table)
                (columns_by_name desired)).additions)
            (indexes_by_name found.table) (indexes_by_name desired) (indexes_by_name desired)
            (indexes_by_name found.table))
      | inr e ↦ rw e
    ]

needs_rebuild-none :
    (m : TreeMap ActualTable) (name : Text) (t : TableDef)
    → get m name ≡ none
    → needs_rebuild m (name, t) ≡ false
unfolding needs_rebuild
needs_rebuild-none m name t e = rw (needs_rebuild, e)

needs_rebuild-some :
    (m : TreeMap ActualTable) (name : Text) (t : TableDef) (found : ActualTable)
    → get m name ≡ some found
    → needs_rebuild m (name, t) ≡ not (is_empty (rebuild_reasons name t found))
unfolding needs_rebuild
needs_rebuild-some m name t found e = rw (needs_rebuild, e) (sym (rebuild_reasons_iff name t found))

diff_tables-destructive :
    (m : TreeMap ActualTable) (l : TreeMap TableDef)
    → any op_is_destructive (diff_tables m l).0 ≡ any (needs_rebuild m) l
unfolding diff_tables op_is_destructive
diff_tables-destructive m [] = refl
diff_tables-destructive m ((name, t) ∷ l) = elim (Option-cases (get m name)) [
  | inl e ↦ rw (needs_rebuild-none m name t e, diff_tables, any, e) (diff_tables-destructive m l)
  | inr (found, e) ↦
      rw (needs_rebuild-some m name t found e, diff_tables, any, e)
        (any-append op_is_destructive (diff_table name t found).0 (diff_tables m l).0
          ∙ rw (diff_table-destructive name t found, diff_tables-destructive m l))
]

drop_tables-destructive :
    (m : TreeMap TableDef) (l : TreeMap ActualTable)
    → any op_is_destructive (drop_tables m l).0 ≡ any (λ e. not (contains_key m e.0)) l
unfolding drop_tables op_is_destructive
drop_tables-destructive m [] = refl
drop_tables-destructive m ((name, t) ∷ l) = ground (arith, drop_tables-destructive m l)

-- A difference has an operation that counts as destructive exactly if a live table is not desired, or a
-- live table that is desired has another name or type of its primary key, a column that is not
-- desired, or a column of which the type's affinity, the nullability or the default is to change.
pub diff_destructive :
    {S : Type 0} (target : SchemaDef) (actual : TreeMap ActualTable) (r : DiffResult)
    → diff {S = S} target actual ≡ ok r
    → any op_is_destructive r.ops ≡ (
        any (needs_rebuild actual) (desired_tables target)
        || any (λ e. not (contains_key (desired_tables target) e.0)) actual)
unfolding diff_parts
diff_destructive target actual r h =
    let tables = desired_tables target in
    ap (any op_is_destructive) (sym (diff_holds target actual r h).0)
    ∙ any-sort_by le_op op_is_destructive (diff_parts target actual).0
    ∙ any-append op_is_destructive (diff_tables actual tables).0 (drop_tables tables actual).0
    ∙ rw (diff_tables-destructive actual tables, drop_tables-destructive tables actual)
