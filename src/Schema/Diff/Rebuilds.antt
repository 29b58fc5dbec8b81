-- ===== src/Schema/Diff/Rebuilds.antt =====
-- When a live table has to be rebuilt.
use seekwel.Prelude.{
  ◌≡◌, refl, ◌∙◌, Bool, true, false, not, ◌||◌, Option, none, some, List, [], ◌∷◌, ◌++◌, Text, any,
  is_empty, is_some, ◌==◌, eq_iff, arith, Bool-cases, Option-cases, inl, inr, if◌then◌else◌,
}
use seekwel.Prelude.Maps.{TreeMap, get, contains_key, insert_all}
use seekwel.Schema.Types.{PrimaryKeyDef, ColumnDef, TableDef}
use seekwel.Schema.Affinity.{from_declared_type, same_affinity}
use seekwel.Schema.Plan.{
  drop_columns, change_primary_key_name, change_primary_key_type, change_column_type,
  change_nullability, change_default,
}
use seekwel.Schema.Diff.Unchanged.{same_affinity_refl}
use seekwel.Schema.Diff.{
  when, key_reasons, column_reasons, column_changes, missing_keys, removal_reasons, same_bool,
  same_default, ActualTable, rebuild_reasons, columns_by_name,
}

-- The two defaults of a column are not the same.
default_differs : Option Text → Option Text → Bool
default_differs none none = false
default_differs (some a) (some b) = not (a == b)
default_differs none (some b) = true
default_differs (some a) none = true

-- The column differs in the affinity of its type, in whether it is nullable, or in its default.
unfoldable pub column_differs : ColumnDef → ColumnDef → Bool
unfolding default_differs
column_differs a b =
    not (same_affinity (from_declared_type a.sql_type) (from_declared_type b.sql_type))
    || ((if a.nullable then not b.nullable else b.nullable)
        || default_differs a.default_sql b.default_sql)

abbrev pub columns_of : TableDef → TreeMap ColumnDef
columns_of t = insert_all (λ (c : ColumnDef). c.name) t.columns []

-- The table has a column of this name, which differs.
unfoldable pub found_differs : Option ColumnDef → ColumnDef → Bool
unfolding column_differs
found_differs none c = false
found_differs (some live) c = column_differs c live

-- The desired table has another primary key than the live one, by its name or the text of its type,
-- one of the columns that both have differs, or a live column is not desired.
unfoldable pub table_differs : TableDef → TableDef → Bool
unfolding found_differs
table_differs desired live =
    (not (desired.primary_key.name == live.primary_key.name)
      || not (desired.primary_key.sql_type == live.primary_key.sql_type))
    || (any (λ e. found_differs (get (columns_of live) e.0) e.1) (columns_of desired)
        || any (λ e. not (contains_key (columns_of desired) e.0)) (columns_of live))

abbrev some_of : {A : Type 0} → List A → Bool
some_of xs = not (is_empty xs)

some_of-append : {A : Type 0} (xs ys : List A) → some_of (xs ++ ys) ≡ (some_of xs || some_of ys)
some_of-append [] ys = refl
some_of-append (x ∷ xs) ys = refl

some_of-when : {A : Type 0} (test : Bool) (x : A) → some_of (when test (x ∷ [])) ≡ test
some_of-when true x = refl
some_of-when false x = refl

type_differs :
    (a b : Text)
    → (not (same_affinity (from_declared_type a) (from_declared_type b)) || not (a == b))
      ≡ not (a == b)
type_differs a b = elim (Bool-cases (a == b)) [
  | inl same ↦ rw (same, (eq_iff a b).0 same) (rw (same_affinity_refl (from_declared_type b)))
  | inr other ↦ ground (arith, other)
]

key_reasons-some_of :
    (desired live : PrimaryKeyDef)
    → some_of (key_reasons desired live)
      ≡ (not (desired.name == live.name) || not (desired.sql_type == live.sql_type))
unfolding key_reasons
key_reasons-some_of desired live = rw (
  some_of-append (when (not (desired.name == live.name)) _) _,
  some_of-when (not (desired.name == live.name)) (change_primary_key_name live.name desired.name),
  some_of-when _ (change_primary_key_type live.sql_type desired.sql_type),
  type_differs desired.sql_type live.sql_type,
)

default_differs_lem : (a b : Option Text) → not (same_default a b) ≡ default_differs a b
unfolding same_default default_differs
default_differs_lem none none = refl
default_differs_lem none (some b) = refl
default_differs_lem (some a) none = refl
default_differs_lem (some a) (some b) = refl

bool_differs_lem : (a b : Bool) → not (same_bool a b) ≡ (if a then not b else b)
unfolding same_bool
bool_differs_lem true b = refl
bool_differs_lem false true = refl
bool_differs_lem false false = refl

column_reasons-some_of :
    (name : Text) (desired live : ColumnDef)
    → some_of (column_reasons name desired live) ≡ column_differs desired live
unfolding column_reasons column_differs
column_reasons-some_of name desired live = rw (
  some_of-append (when (not _) (change_column_type name live.sql_type desired.sql_type ∷ [])) _,
  some_of-when _ (change_column_type name live.sql_type desired.sql_type),
  some_of-append (when (not _) (change_nullability name live.nullable desired.nullable ∷ [])) _,
  some_of-when _ (change_nullability name live.nullable desired.nullable),
  some_of-when _ (change_default name live.default_sql desired.default_sql),
  bool_differs_lem desired.nullable live.nullable,
  default_differs_lem desired.default_sql live.default_sql,
)

column_changes-some_of :
    (table : Text) (live columns : TreeMap ColumnDef)
    → some_of (column_changes table live columns).reasons
      ≡ any (λ e. found_differs (get live e.0) e.1) columns
unfolding column_changes found_differs
column_changes-some_of table live [] = refl
column_changes-some_of table live ((name, desired) ∷ rest) = elim (Option-cases (get live name)) [
  | inl e ↦ elim (Bool-cases (desired.nullable || is_some desired.default_sql)) [
    | inl fits ↦ rw (e, column_changes, fits) (column_changes-some_of table live rest)
    | inr fails ↦ rw (e, column_changes, fails) (column_changes-some_of table live rest)
  ]
  | inr (found, e) ↦
      rw (column_changes, e)
        (some_of-append (column_reasons name desired found) _
          ∙ rw (column_reasons-some_of name desired found, column_changes-some_of table live rest))
]

missing_keys-some_of :
    {A B : Type 0} (m : TreeMap A) (l : TreeMap B)
    → some_of (missing_keys m l) ≡ any (λ e. not (contains_key l e.0)) m
unfolding missing_keys
missing_keys-some_of [] l = refl
missing_keys-some_of ((name, v) ∷ rest) l = ground (arith, missing_keys-some_of rest l)

removal_reasons-some_of :
    (removed : List Text) → some_of (removal_reasons removed) ≡ some_of removed
unfolding removal_reasons
removal_reasons-some_of removed = some_of-when (not (is_empty removed)) (drop_columns removed)

-- The code finds a reason to rebuild a live table exactly if it differs from the desired one.
pub rebuild_reasons_iff :
    (name : Text) (desired : TableDef) (found : ActualTable)
    → not (is_empty (rebuild_reasons name desired found)) ≡ table_differs desired found.table
unfolding rebuild_reasons table_differs columns_by_name
rebuild_reasons_iff name desired found = rw (
  some_of-append (key_reasons desired.primary_key found.table.primary_key) _,
  some_of-append
      (column_changes name (columns_by_name found.table) (columns_by_name desired)).reasons _,
  key_reasons-some_of desired.primary_key found.table.primary_key,
  column_changes-some_of name (columns_by_name found.table) (columns_by_name desired),
  removal_reasons-some_of (missing_keys (columns_by_name found.table) (columns_by_name desired)),
  missing_keys-some_of (columns_by_name found.table) (columns_by_name desired),
)
