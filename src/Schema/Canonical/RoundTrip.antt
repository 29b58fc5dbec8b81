-- ===== src/Schema/Canonical/RoundTrip.antt =====
-- The stored text of a schema reads back as the schema.
use seekwel.Prelude.{
  ◌≡◌, ◌≢◌, ap, ◌∙◌, Bool, true, false, Option, none, some, List, [], ◌∷◌, ◌++◌, map, Text, codes,
  lines, All, All-imp, All-map, All-append, arith, append-nil, append_assoc,
}
use seekwel.Errors.{ok}
use seekwel.Schema.Types.{ColumnDef, IndexDef, TableDef, SchemaDef}
use seekwel.Schema.Names.{Ascending, Ascending-ne, Ascending-tail}
use seekwel.Schema.Normalize.Laws.{IsNormal, normalized_of_IsNormal}
use seekwel.Schema.Canonical.{
  flag, default_cell, table_cells, column_cells, index_cells, column_rows, index_rows, table_rows,
  canonical_string, parse_lines, from_canonical,
}
use seekwel.Schema.Canonical.Rows.{
  IsClean, IsCleanDefault, IsCleanColumn, IsCleanIndex, IsCleanTable, parse_lines-row, IsFresh,
  with_parts, parse_cells-table, parse_cells-column, parse_cells-index,
}

flag-IsClean : (b : Bool) → IsClean (flag b)
unfolding flag
flag-IsClean true = omega arith
flag-IsClean false = omega arith

default_cell-IsClean : (d : Option Text) → IsCleanDefault d → IsClean (default_cell d)
default_cell-IsClean none h = (tt, tt, tt)
default_cell-IsClean (some sql) h = h.0

kind-IsClean : IsClean (codes "table") × IsClean (codes "column") × IsClean (codes "index")
kind-IsClean = omega arith

column_cells-IsClean :
    (name : Text) (c : ColumnDef)
    → IsClean name
    → IsCleanColumn c
    → All IsClean (column_cells name c)
unfolding column_cells
column_cells-IsClean name c n h = (
  kind-IsClean.1,
  (
    n,
    (
      h.name,
      (
        h.sql_type,
        (flag-IsClean c.nullable, (default_cell-IsClean c.default_sql h.default_sql, tt)),
      ),
    ),
  ),
)

index_cells-IsClean :
    (name : Text) (i : IndexDef) → IsClean name → IsCleanIndex i → All IsClean (index_cells name i)
unfolding index_cells
index_cells-IsClean name i n h =
    (kind-IsClean.2, (n, (h.name, (h.column, (flag-IsClean i.unique, tt)))))

table_cells-IsClean : (t : TableDef) → IsCleanTable t → All IsClean (table_cells t)
unfolding table_cells
table_cells-IsClean t h = (kind-IsClean.0, (h.name, (h.primary_key_name, (h.primary_key_type, tt))))

module _ {S : Type 0} (before : List TableDef) (t : TableDef) (fresh : IsFresh t.name before)
    (clean : IsClean t.name) where
  parse_lines-column_rows :
      (cs : List ColumnDef) (done : List ColumnDef) (rest : Text)
      → All IsCleanColumn cs
      → parse_lines {S = S}
          (before ++ (with_parts t done [] ∷ []))
          (lines (column_rows t.name cs rest))
        ≡ parse_lines (before ++ (with_parts t (done ++ cs) [] ∷ [])) (lines rest)
  unfolding column_rows
  parse_lines-column_rows [] done rest h = rw (append-nil done)
  parse_lines-column_rows (c ∷ cs) done rest h =
      parse_lines-row (before ++ (with_parts t done [] ∷ [])) _ _ _ _ (column_rows t.name cs rest)
        (column_cells-IsClean t.name c clean h.0)
      ∙ rw (parse_cells-column before t fresh done c h.0) (
          parse_lines-column_rows cs (done ++ (c ∷ [])) rest h.1
          ∙ ap (λ l. parse_lines (before ++ (with_parts t l [] ∷ [])) (lines rest))
              (append_assoc done (c ∷ []) cs))

  parse_lines-index_rows :
      (is : List IndexDef) (cs : List ColumnDef) (done : List IndexDef) (rest : Text)
      → All IsCleanIndex is
      → parse_lines {S = S}
          (before ++ (with_parts t cs done ∷ []))
          (lines (index_rows t.name is rest))
        ≡ parse_lines (before ++ (with_parts t cs (done ++ is) ∷ [])) (lines rest)
  unfolding index_rows
  parse_lines-index_rows [] cs done rest h = rw (append-nil done)
  parse_lines-index_rows (i ∷ is) cs done rest h =
      parse_lines-row (before ++ (with_parts t cs done ∷ [])) _ _ _ _ (index_rows t.name is rest)
        (index_cells-IsClean t.name i clean h.0)
      ∙ rw (parse_cells-index before t fresh cs done i) (
          parse_lines-index_rows is cs (done ++ (i ∷ [])) rest h.1
          ∙ ap (λ l. parse_lines (before ++ (with_parts t cs l ∷ [])) (lines rest))
              (append_assoc done (i ∷ []) is))

-- Tables of distinct names, none of them the name of a table of `before`.
abbrev AreFresh : List TableDef → List TableDef → Type 0
AreFresh before [] = Unit
AreFresh before (t ∷ ts) = IsFresh t.name before × AreFresh (before ++ (t ∷ [])) ts

parse_lines-table_rows :
    {S : Type 0} (ts before : List TableDef)
    → All IsCleanTable ts
    → AreFresh before ts
    → parse_lines {S = S} before (lines (table_rows ts)) ≡ ok (before ++ ts)
unfolding table_rows
parse_lines-table_rows [] before h f = unfold parse_lines lines in rw (append-nil before)
parse_lines-table_rows (t ∷ ts) before h f =
    let k = h.0 in
    let rest = table_rows ts in
    parse_lines-row before _ _ _ _ (column_rows t.name t.columns (index_rows t.name t.indexes rest))
      (table_cells-IsClean t k)
    ∙ rw (parse_cells-table before t) (
        parse_lines-column_rows before t f.0 k.name t.columns [] (index_rows t.name t.indexes rest)
          k.columns
        ∙ parse_lines-index_rows before t f.0 k.name t.indexes t.columns [] rest k.indexes
        ∙ parse_lines-table_rows ts (before ++ (t ∷ [])) h.1 f.1
        ∙ ap ok (append_assoc before (t ∷ []) ts))

Ascending-AreFresh :
    (ts before : List TableDef)
    → All (λ (b : TableDef). All (λ (t : TableDef). b.name ≢ t.name) ts) before
    → Ascending (map (λ (t : TableDef). t.name) ts)
    → AreFresh before ts
Ascending-AreFresh [] before h a = tt
Ascending-AreFresh (t ∷ ts) before h a =
    let later : All (λ (u : TableDef). t.name ≢ u.name) ts =
      (All-map (λ n. t.name ≢ n) (λ (u : TableDef). u.name) ts).1
        (Ascending-ne t.name (map (λ (u : TableDef). u.name) ts) a) in
    (
      All-imp before (λ b k. k.0) h,
      Ascending-AreFresh ts (before ++ (t ∷ []))
          (All-append _ before (t ∷ []) (All-imp before (λ b k. k.1) h) (later, tt))
          (Ascending-tail t.name (map (λ (u : TableDef). u.name) ts) a),
    )

-- The stored text of a schema in normal form, whose texts have no tab, line feed or carriage
-- return and whose defaults are not empty, reads back as that schema.
pub from_canonical-canonical_string :
    {S : Type 0} (s : SchemaDef)
    → IsNormal s
    → All IsCleanTable s.tables
    → from_canonical {S = S} (canonical_string s) ≡ ok s
unfolding from_canonical canonical_string
from_canonical-canonical_string s n h =
    rw (parse_lines-table_rows s.tables [] h (Ascending-AreFresh s.tables [] tt n.tables))
      (normalized_of_IsNormal s n)
