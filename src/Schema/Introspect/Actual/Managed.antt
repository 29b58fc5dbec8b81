-- ===== src/Schema/Introspect/Actual/Managed.antt =====
-- A table that the library created is read back as it was declared.
use seekwel.Prelude.{
  suc, ◌≡◌, ◌≢◌, refl, sym, ap, ◌∙◌, Bool, true, false, not, ◌&&◌, none, some, List, [], ◌∷◌, ◌++◌,
  map, map-append, append-nil, Text, codes, ◌==◌, eq_iff, eq_refl, All, All-imp, any, length, arith,
}
use seekwel.Prelude.Integers.{pos, is_positive, is_number}
use seekwel.Prelude.Search.{eq_ignore_ascii_case, to_ascii_lowercase, to_ascii_uppercase, contains}
use seekwel.Prelude.Maps.{TreeMap}
use seekwel.Connection.Log.{is_whitespace}
use seekwel.Schema.Types.{PrimaryKeyDef, ColumnDef, IndexDef}
use seekwel.Schema.Affinity.{from_declared_type, same_affinity, trim}
use seekwel.Schema.Introspect.Rows.{ColumnRow, ReplaySqlWithTable}
use seekwel.Schema.Introspect.Actual.{
  filter, find, pk_count, primary_key_column, primary_key_def, exact_key, primary_key_is_exact,
  unsupported_inline_features, column_def, column_defs, actual_table,
}

-- The rows of `PRAGMA table_xinfo` for a column and for the primary key, as SQLite documents them.
abbrev pub plain : ColumnDef → ColumnRow
plain c = record {
  name = c.name;
  sql_type = c.sql_type;
  not_null = not c.nullable;
  default_sql = c.default_sql;
  pk = pos 0;
  hidden = pos 0;
}

abbrev pub key_row : PrimaryKeyDef → ColumnRow
key_row k = record {
  name = k.name;
  sql_type = k.sql_type;
  not_null = false;
  default_sql = none;
  pk = pos 1;
  hidden = pos 0;
}

-- The rows of a table whose key stands between these columns.
pub rows_of : PrimaryKeyDef → List ColumnDef → List ColumnDef → List ColumnRow
rows_of key before after = map plain before ++ key_row key ∷ map plain after

not-not : (b : Bool) → not (not b) ≡ b
not-not true = refl
not-not false = refl

module _ (p : ColumnRow → Bool) where
  filter-drop :
      (cs : List ColumnDef) (rest : List ColumnRow)
      → ((c : ColumnDef) → p (plain c) ≡ false)
      → filter p (map plain cs ++ rest) ≡ filter p rest
  unfolding filter
  filter-drop [] rest h = refl
  filter-drop (c ∷ cs) rest h = rw (h c) (filter-drop cs rest h)

  find-drop :
      (cs : List ColumnDef) (rest : List ColumnRow)
      → ((c : ColumnDef) → p (plain c) ≡ false)
      → find p (map plain cs ++ rest) ≡ find p rest
  unfolding find
  find-drop [] rest h = refl
  find-drop (c ∷ cs) rest h = rw (h c) (find-drop cs rest h)

  filter-keep :
      (cs : List ColumnDef) (rest : List ColumnRow)
      → All (λ c. p (plain c) ≡ true) cs
      → filter p (map plain cs ++ rest) ≡ map plain cs ++ filter p rest
  unfolding filter
  filter-keep [] rest h = refl
  filter-keep (c ∷ cs) rest h = rw (h.0) (ap (◌∷◌ (plain c)) (filter-keep cs rest h.1))

  any-drop :
      (cs : List ColumnDef) (rest : List ColumnRow)
      → ((c : ColumnDef) → p (plain c) ≡ false)
      → any p (map plain cs ++ rest) ≡ any p rest
  any-drop [] rest h = refl
  any-drop (c ∷ cs) rest h = rw (h c) (any-drop cs rest h)

column_def-plain : (cs : List ColumnDef) → map column_def (map plain cs) ≡ cs
unfolding column_def
column_def-plain [] = refl
column_def-plain (c ∷ cs) = rw (not-not c.nullable) (ap (◌∷◌ c) (column_def-plain cs))

module _ (key : PrimaryKeyDef) (before after : List ColumnDef) where
  primary_key_column_of_rows : primary_key_column (rows_of key before after) ≡ some (key_row key)
  unfolding primary_key_column rows_of find
  primary_key_column_of_rows =
      find-drop (λ (c : ColumnRow). is_number 1 c.pk) before (key_row key ∷ map plain after)
        (λ c. refl)

  pk_count_of_rows : pk_count (rows_of key before after) ≡ 1
  unfolding pk_count rows_of filter
  pk_count_of_rows =
      let positive : ColumnRow → Bool = λ c. is_positive c.pk in
      ap length (filter-drop positive before (key_row key ∷ map plain after) (λ c. refl))
      ∙ ap (λ xs. suc (length xs))
          (ap (filter positive) (sym (append-nil (map plain after)))
            ∙ filter-drop positive after [] (λ c. refl))

  hidden_of_rows :
      any (λ (c : ColumnRow). not (is_number 0 c.hidden)) (rows_of key before after) ≡ false
  unfolding rows_of
  hidden_of_rows =
      let hidden : ColumnRow → Bool = λ c. not (is_number 0 c.hidden) in
      any-drop hidden before (key_row key ∷ map plain after) (λ c. refl)
      ∙ ap (any hidden) (sym (append-nil (map plain after)))
      ∙ any-drop hidden after [] (λ c. refl)

  primary_key_def_of_rows : primary_key_def (rows_of key before after) ≡ key
  unfolding primary_key_def
  primary_key_def_of_rows = rw primary_key_column_of_rows refl

  exact_of_rows :
      key.sql_type ≡ codes "INTEGER" → primary_key_is_exact (rows_of key before after) ≡ true
  unfolding primary_key_is_exact exact_key eq_ignore_ascii_case from_declared_type same_affinity
      trim to_ascii_lowercase ◌==◌ is_whitespace
  exact_of_rows e = rw (primary_key_column_of_rows, pk_count_of_rows) (rw e refl)

  -- No column has the name of the key.
  abbrev Other : ColumnDef → Type 0
  Other c = c.name ≢ key.name

  kept_column :
      (c : ColumnDef) → Other c → (is_number 0 (plain c).hidden && not (c.name == key.name)) ≡ true
  kept_column c h = ground (arith, eq_iff c.name key.name)

  abbrev wanted : ColumnRow → Bool
  wanted c = is_number 0 c.hidden && not (c.name == key.name)

  wanted-after : All Other after → filter wanted (key_row key ∷ map plain after) ≡ map plain after
  unfolding filter
  wanted-after k = rw (eq_refl key.name) (
      ap (filter wanted) (sym (append-nil (map plain after)))
      ∙ filter-keep wanted after [] (All-imp after kept_column k)
      ∙ append-nil (map plain after))

  filter-wanted :
      All Other before
      → All Other after
      → filter wanted (rows_of key before after) ≡ map plain (before ++ after)
  unfolding rows_of
  filter-wanted h k =
      filter-keep wanted before (key_row key ∷ map plain after) (All-imp before kept_column h)
      ∙ ap (λ xs. map plain before ++ xs) (wanted-after k)
      ∙ sym (map-append plain before after)

  column_defs_of_rows :
      All Other before → All Other after → column_defs (rows_of key before after) ≡ before ++ after
  unfolding column_defs
  column_defs_of_rows h k =
      rw primary_key_def_of_rows
        (ap (map column_def) (filter-wanted h k) ∙ column_def-plain (before ++ after))

-- The words that make a stored statement unsupported.
pub record IsPlainSql (sql : Text) : Type 0 where
  pub check : contains (codes "CHECK") (map to_ascii_uppercase sql) ≡ false
  pub rowid : contains (codes "WITHOUT ROWID") (map to_ascii_uppercase sql) ≡ false
  pub generated : contains (codes "GENERATED ALWAYS") (map to_ascii_uppercase sql) ≡ false

features_of_rows :
    (key : PrimaryKeyDef) (before after : List ColumnDef) (sql : Text)
    → key.sql_type ≡ codes "INTEGER"
    → IsPlainSql sql
    → unsupported_inline_features (rows_of key before after) sql ≡ []
unfolding unsupported_inline_features
features_of_rows key before after sql e h = rw (exact_of_rows key before after e) (
    rw (pk_count_of_rows key before after)
      (rw (hidden_of_rows key before after) (rw h.check (rw h.rowid (rw h.generated refl)))))

-- From the rows that describe a table with an INTEGER primary key, between columns that do not have
-- its name, and a stored statement without an unsupported word, the table is read back as it was
-- declared, and no feature of it is unsupported.
pub actual_table-rows_of :
    (name sql : Text) (key : PrimaryKeyDef) (before after : List ColumnDef)
    (indexes : List IndexDef) (replayables : TreeMap (List Text))
    (candidates : List ReplaySqlWithTable) (foreign : Bool)
    → key.sql_type ≡ codes "INTEGER"
    → All (λ (c : ColumnDef). c.name ≢ key.name) before
    → All (λ (c : ColumnDef). c.name ≢ key.name) after
    → IsPlainSql sql
    → let actual =
        actual_table name sql (rows_of key before after) indexes replayables candidates foreign in
      (actual.table
        ≡ record { name = name; primary_key = key; columns = before ++ after; indexes = indexes })
      × (actual.unsupported_inline_features ≡ [])
unfolding actual_table
actual_table-rows_of name sql key before after indexes replayables candidates foreign e h k
      plain_sql =
    (
      rw (primary_key_def_of_rows key before after, column_defs_of_rows key before after h k) refl,
      features_of_rows key before after sql e plain_sql,
    )
