-- ===== src/Schema/Canonical/Rows.antt =====
-- Each row of the stored text of a schema reads back as what it was written for.
use seekwel.Prelude.{
  ℕ, ◌≡◌, ◌≢◌, refl, ap, ◌∙◌, Bool, true, false, Option, none, some, List, [], ◌∷◌, ◌++◌, Text,
  codes, ◌==◌, eq_iff, join, lines, split-join, lines-line, Lacks, Lacks-join, All, All-imp, arith,
}
use seekwel.Errors.{ok, ◌>>=◌}
use seekwel.Schema.Types.{ColumnDef, IndexDef, TableDef}
use seekwel.Schema.Canonical.{
  tabbed, flag, default_cell, row, table_cells, column_cells, index_cells, update_table, has_table,
  push_column, push_index, default_of, next_or, rest_of, parse_flag, no_trailing, known_table,
  table_row, column_row, index_row, parse_cells, parse_line, parse_lines,
}

-- A text with no tab, no line feed and no carriage return.
abbrev pub IsClean : Text → Type 0
IsClean a = Lacks 9 a × Lacks 10 a × Lacks 13 a

-- A default is clean, and not the empty text.
abbrev pub IsCleanDefault : Option Text → Type 0
IsCleanDefault none = Unit
IsCleanDefault (some sql) = IsClean sql × (sql ≢ [])

pub record IsCleanColumn (c : ColumnDef) : Type 0 where
  pub name : IsClean c.name
  pub sql_type : IsClean c.sql_type
  pub default_sql : IsCleanDefault c.default_sql

pub record IsCleanIndex (i : IndexDef) : Type 0 where
  pub name : IsClean i.name
  pub column : IsClean i.column

pub record IsCleanTable (t : TableDef) : Type 0 where
  pub name : IsClean t.name
  pub primary_key_name : IsClean t.primary_key.name
  pub primary_key_type : IsClean t.primary_key.sql_type
  pub columns : All IsCleanColumn t.columns
  pub indexes : All IsCleanIndex t.indexes

pub lines-row :
    (cells : List Text) (rest : Text)
    → All IsClean cells
    → lines (row cells rest) ≡ tabbed cells ∷ lines rest
unfolding row
lines-row cells rest h =
    lines-line (join (9 ∷ []) cells) rest
      (Lacks-join 10 (9 ∷ []) cells (omega arith) (All-imp cells (λ a k. k.1) h))
      (Lacks-join 13 (9 ∷ []) cells (omega arith) (All-imp cells (λ a k. k.2) h))

module _ {S : Type 0} where
  pub parse_line-row :
      (tables : List TableDef) (c : ℕ) (k : Text) (x : Text) (xs : List Text)
      → All IsClean ((c ∷ k) ∷ x ∷ xs)
      → parse_line {S = S} tables (tabbed ((c ∷ k) ∷ x ∷ xs))
        ≡ parse_cells tables ((c ∷ k) ∷ x ∷ xs)
  unfolding parse_line tabbed join
  parse_line-row tables c k x xs h =
      ap (parse_cells tables)
        (split-join 9 (c ∷ k) (x ∷ xs) (All-imp ((c ∷ k) ∷ x ∷ xs) (λ a l. l.0) h))

  pub parse_lines-row :
      (tables : List TableDef) (c : ℕ) (k : Text) (x : Text) (xs : List Text) (rest : Text)
      → All IsClean ((c ∷ k) ∷ x ∷ xs)
      → parse_lines {S = S} tables (lines (row ((c ∷ k) ∷ x ∷ xs) rest))
        ≡ (parse_cells tables ((c ∷ k) ∷ x ∷ xs) >>= λ t. parse_lines t (lines rest))
  unfolding parse_lines
  parse_lines-row tables c k x xs rest h =
      rw (lines-row ((c ∷ k) ∷ x ∷ xs) rest h, parse_line-row tables c k x xs h)

  pub parse_flag-flag : (m : Text) (b : Bool) → parse_flag {S = S} m (flag b) ≡ ok b
  unfolding parse_flag flag ◌==◌
  parse_flag-flag m true = refl
  parse_flag-flag m false = refl

pub default_of-default_cell :
    (d : Option Text) → IsCleanDefault d → default_of (default_cell d ∷ []) ≡ d
unfolding default_of
default_of-default_cell none h = refl
default_of-default_cell (some []) h = absurd (h.1 refl)
default_of-default_cell (some (c ∷ cs)) h = refl

-- No table of `before` has this name.
abbrev pub IsFresh : Text → List TableDef → Type 0
IsFresh name = All (λ (t : TableDef). t.name ≢ name)

pub update_table-last :
    (name : Text) (change : TableDef → TableDef) (before : List TableDef) (u : TableDef)
    → IsFresh name before
    → u.name ≡ name
    → update_table name change (before ++ (u ∷ [])) ≡ before ++ (change u ∷ [])
unfolding update_table
update_table-last name change [] u h e = ground (arith, eq_iff u.name name)
update_table-last name change (t ∷ before) u h e =
    ground (arith, eq_iff t.name name, update_table-last name change before u h.1 e)

pub has_table-last :
    (name : Text) (before : List TableDef) (u : TableDef)
    → u.name ≡ name
    → has_table name (before ++ (u ∷ [])) ≡ true
has_table-last name [] u e = ground (arith, eq_iff u.name name)
has_table-last name (t ∷ before) u e = ground (arith, has_table-last name before u e)

-- The table that the row of `t` alone makes, and the one with some columns and indexes.
abbrev pub with_parts : TableDef → List ColumnDef → List IndexDef → TableDef
with_parts t cs is = record t { columns = cs; indexes = is }

module _ {S : Type 0} (before : List TableDef) where
  pub parse_cells-table :
      (t : TableDef)
      → parse_cells {S = S} before (table_cells t) ≡ ok (before ++ (with_parts t [] [] ∷ []))
  unfolding parse_cells table_cells table_row no_trailing next_or rest_of ◌==◌
  parse_cells-table t = refl

  pub known_table-last :
      (what name : Text) (u : TableDef)
      → u.name ≡ name
      → known_table {S = S} what name (before ++ (u ∷ [])) ≡ ok tt
  unfolding known_table
  known_table-last what name u e = rw (has_table-last name before u e)

  pub parse_cells-column_row :
      (cells : List Text)
      → parse_cells {S = S} before (codes "column" ∷ cells) ≡ column_row before cells
  unfolding parse_cells ◌==◌
  parse_cells-column_row cells = refl

  pub parse_cells-index_row :
      (cells : List Text)
      → parse_cells {S = S} before (codes "index" ∷ cells) ≡ index_row before cells
  unfolding parse_cells ◌==◌
  parse_cells-index_row cells = refl

module _ {S : Type 0} (before : List TableDef) (t : TableDef) (fresh : IsFresh t.name before) where
  pub parse_cells-column :
      (cs : List ColumnDef) (c : ColumnDef)
      → IsCleanColumn c
      → parse_cells {S = S} (before ++ (with_parts t cs [] ∷ [])) (column_cells t.name c)
        ≡ ok (before ++ (with_parts t (cs ++ (c ∷ [])) [] ∷ []))
  parse_cells-column cs c h =
      let u = with_parts t cs [] in
      unfold column_cells in
      parse_cells-column_row (before ++ (u ∷ [])) _
      ∙ (unfold column_row no_trailing rest_of in
          rw
            (
              known_table-last before (codes "column") t.name u refl,
              parse_flag-flag,
              default_of-default_cell c.default_sql h.default_sql,
              update_table-last t.name _ before u fresh refl,
            )
            (unfold push_column in refl))

  pub parse_cells-index :
      (cs : List ColumnDef) (is : List IndexDef) (i : IndexDef)
      → parse_cells {S = S} (before ++ (with_parts t cs is ∷ [])) (index_cells t.name i)
        ≡ ok (before ++ (with_parts t cs (is ++ (i ∷ [])) ∷ []))
  parse_cells-index cs is i =
      let u = with_parts t cs is in
      unfold index_cells in
      parse_cells-index_row (before ++ (u ∷ [])) _
      ∙ (unfold index_row no_trailing in
          rw
            (
              known_table-last before (codes "index") t.name u refl,
              parse_flag-flag,
              update_table-last t.name _ before u fresh refl,
            )
            (unfold push_index in refl))
