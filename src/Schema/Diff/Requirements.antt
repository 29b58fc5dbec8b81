-- ===== src/Schema/Diff/Requirements.antt =====
-- When a difference is blocked by a column that must be added and has no value for its rows.
use seekwel.Prelude.{
  ◌≡◌, refl, sym, ap, ◌∙◌, Bool, true, false, not, ◌&&◌, ◌||◌, none, some, List, [], ◌∷◌, ◌++◌, map,
  Text, any, is_some, is_empty, Bool-cases, Option-cases, inl, inr,
}
use seekwel.Prelude.Sorting.{any-sort_by}
use seekwel.Prelude.Maps.{TreeMap, get, contains_key}
use seekwel.Errors.{ok}
use seekwel.Schema.Types.{ColumnDef, TableDef, SchemaDef}
use seekwel.Schema.Plan.{
  PlanBlocker, required_column_addition, unsupported_inline_feature, dependent_view,
  dependent_trigger,
}
use seekwel.Schema.Diff.Order.{diff_holds}
use seekwel.Schema.Diff.Destruction.{any-append, desired_tables}
use seekwel.Schema.Diff.{
  ActualTable, DiffResult, le_blocker, column_changes, columns_by_name, dependents, rebuild_reasons,
  diff_table, diff_tables, drop_tables, diff_parts, diff,
}

unfoldable pub is_required_addition : PlanBlocker → Bool
is_required_addition (required_column_addition table column) = true
is_required_addition _ = false

-- The column is `NOT NULL` without a default, and the live table does not have it.
unfoldable pub lacks_value : TreeMap ColumnDef → Text × ColumnDef → Bool
lacks_value actual (name, c) =
    not (contains_key actual name) && not (c.nullable || is_some c.default_sql)

-- The table is there, and has to get a column that lacks a value.
unfoldable pub adds_required : TreeMap ActualTable → Text × TableDef → Bool
unfolding columns_by_name
adds_required actual (name, desired) = elim (get actual name) [
  | none ↦ false
  | some found ↦ any (lacks_value (columns_by_name found.table)) (columns_by_name desired)
]

or_false : (b : Bool) → (b || false) ≡ b
or_false true = refl
or_false false = refl

adds_required-none :
    (m : TreeMap ActualTable) (name : Text) (t : TableDef)
    → get m name ≡ none
    → adds_required m (name, t) ≡ false
unfolding adds_required
adds_required-none m name t e = rw (adds_required, e)

adds_required-some :
    (m : TreeMap ActualTable) (name : Text) (t : TableDef) (found : ActualTable)
    → get m name ≡ some found
    → adds_required m (name, t)
      ≡ any (lacks_value (columns_by_name found.table)) (columns_by_name t)
unfolding adds_required
adds_required-some m name t found e = rw (adds_required, e)

column_changes-required :
    (table : Text) (m l : TreeMap ColumnDef)
    → any is_required_addition (column_changes table m l).refusals ≡ any (lacks_value m) l
unfolding column_changes lacks_value is_required_addition contains_key
column_changes-required table m [] = refl
column_changes-required table m ((name, c) ∷ l) = elim (Option-cases (get m name)) [
  | inl e ↦ elim (Bool-cases (c.nullable || is_some c.default_sql)) [
    | inl v ↦
        rw (column_changes, any, lacks_value, contains_key, e, v)
          (column_changes-required table m l)
    | inr v ↦ rw (column_changes, any, lacks_value, contains_key, e, v)
  ]
  | inr (found, e) ↦
      rw (column_changes, any, lacks_value, contains_key, e) (column_changes-required table m l)
]

map-required :
    (f : Text → PlanBlocker)
    → ((x : Text) → is_required_addition (f x) ≡ false)
    → (xs : List Text) → any is_required_addition (map f xs) ≡ false
map-required f h [] = refl
map-required f h (x ∷ xs) = rw (h x, map-required f h xs)

dependents-required :
    (name : Text) (a : ActualTable) → any is_required_addition (dependents name a) ≡ false
unfolding dependents is_required_addition
dependents-required name a =
    let views = map-required (dependent_view name) (λ x. refl) a.dependent_views in
    let triggers =
      map-required (dependent_trigger name) (λ x. refl) a.dependent_external_triggers in
    let both : any is_required_addition (
          map (dependent_view name) a.dependent_views
          ++ map (dependent_trigger name) a.dependent_external_triggers)
        ≡ false =
      any-append is_required_addition (map (dependent_view name) a.dependent_views)
        (map (dependent_trigger name) a.dependent_external_triggers)
      ∙ rw (views, triggers) in
    elim (Bool-cases a.has_real_foreign_keys) [ inl k ↦ rw k both | inr k ↦ rw k both ]

diff_table-required :
    (name : Text) (desired : TableDef) (found : ActualTable)
    → any is_required_addition (diff_table name desired found).1
      ≡ any (lacks_value (columns_by_name found.table)) (columns_by_name desired)
unfolding diff_table is_required_addition
diff_table-required name desired found =
    let changes = column_changes name (columns_by_name found.table) (columns_by_name desired) in
    let added =
      column_changes-required name (columns_by_name found.table) (columns_by_name desired) in
    let inline = map (unsupported_inline_feature name) found.unsupported_inline_features in
    elim (Bool-cases (is_empty (rebuild_reasons name desired found))) [
      | inl e ↦ rw e added
      | inr e ↦ rw e (
          any-append is_required_addition changes.refusals (inline ++ dependents name found)
          ∙ rw
              (
                any-append is_required_addition inline (dependents name found),
                map-required (unsupported_inline_feature name) (λ x. refl)
                    found.unsupported_inline_features,
                dependents-required name found,
              )
              (or_false _ ∙ added))
    ]

diff_tables-required :
    (m : TreeMap ActualTable) (l : TreeMap TableDef)
    → any is_required_addition (diff_tables m l).1 ≡ any (adds_required m) l
unfolding diff_tables
diff_tables-required m [] = refl
diff_tables-required m ((name, t) ∷ l) = elim (Option-cases (get m name)) [
  | inl e ↦ rw (adds_required-none m name t e, diff_tables, any, e) (diff_tables-required m l)
  | inr (found, e) ↦
      rw (adds_required-some m name t found e, diff_tables, any, e)
        (any-append is_required_addition (diff_table name t found).1 (diff_tables m l).1
          ∙ rw (diff_table-required name t found, diff_tables-required m l))
]

drop_tables-required :
    (m : TreeMap TableDef) (l : TreeMap ActualTable)
    → any is_required_addition (drop_tables m l).1 ≡ false
unfolding drop_tables
drop_tables-required m [] = refl
drop_tables-required m ((name, a) ∷ l) = elim (Bool-cases (contains_key m name)) [
  | inl e ↦ rw (drop_tables, e) (drop_tables-required m l)
  | inr e ↦
      rw (drop_tables, e)
        (any-append is_required_addition (dependents name a) (drop_tables m l).1
          ∙ rw (dependents-required name a, drop_tables-required m l))
]

-- A difference is blocked by a required column exactly if a live table that is desired does not have
-- a desired column which is not null and has no default.
pub diff_required :
    {S : Type 0} (target : SchemaDef) (actual : TreeMap ActualTable) (r : DiffResult)
    → diff {S = S} target actual ≡ ok r
    → any is_required_addition r.blockers ≡ any (adds_required actual) (desired_tables target)
unfolding diff_parts
diff_required target actual r h =
    let tables = desired_tables target in
    ap (any is_required_addition) (sym (diff_holds target actual r h).1)
    ∙ any-sort_by le_blocker is_required_addition (diff_parts target actual).1
    ∙ any-append is_required_addition (diff_tables actual tables).1 (drop_tables tables actual).1
    ∙ rw (diff_tables-required actual tables, drop_tables-required tables actual) (or_false _)
