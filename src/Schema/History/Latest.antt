-- ===== src/Schema/History/Latest.antt =====
-- The history table keeps the schemas that were applied, and the last one is read back.
use seekwel.Prelude.{
  ℕ, ◌≡◌, refl, sym, ap, Bool, true, false, not, Option, none, some, ◌⊎◌, inl, inr, subst, List, [],
  ◌∷◌, map, Text, is_some, if◌then◌else◌, All,
}
use seekwel.Prelude.Integers.{pos, is_number}
use seekwel.Errors.{Result, ok, err}
use seekwel.Connection.Value.{Value, text}
use seekwel.Connection.Transaction.{World}
use seekwel.Connection.Act.{
  Sqlite, then_of, ◌>>=◌, lift, branch, first_row, found_row, query_rows, query_row, query_optional,
}
use seekwel.Connection.Act.Reading.{ReadsOnly, kept, reading, query_row-ReadsOnly}
use seekwel.Schema.Types.{SchemaDef, history_table}
use seekwel.Schema.Canonical.{canonical_string}
use seekwel.Schema.Canonical.Rows.{IsCleanTable}
use seekwel.Schema.Canonical.RoundTrip.{from_canonical-canonical_string}
use seekwel.Schema.Normalize.Laws.{IsNormal}
use seekwel.Schema.History.{
  exists_query, latest_query, load_of, ensure_sql, insert_sql, read_schema, history_table_exists,
  load_latest_target_schema,
}

-- What SQLite does with the four statements. `stored` are the cells `target_schema` of the table's
-- rows, the last row first, if the table exists.
pub record HistoryTable {S R Row D : Type 0} (sqlite : Sqlite S R Row D) : Type 0 where
  pub stored : D → Option (List Text)
  pub exists :
      (d : D)
      → (row : Row) × (sqlite.query exists_query (text history_table ∷ []) d ≡ ok (ok row ∷ []))
        × (sqlite.integer_at 0 row ≡ ok (pos (if is_some (stored d) then 1 else 0)))
  pub latest :
      (d : D) (t : Text) (rest : List Text)
      → stored d ≡ some (t ∷ rest)
      → (row : Row) × (sqlite.query latest_query [] d ≡ ok (ok row ∷ []))
        × (sqlite.text_at 0 row ≡ ok t)
  pub latest_of_none : (d : D) → stored d ≡ some [] → sqlite.query latest_query [] d ≡ ok []
  pub ensure :
      (d : D)
      → (sqlite.execute_batch ensure_sql d).0 ≡ ok tt
      → stored (sqlite.execute_batch ensure_sql d).1
        ≡ some (elim (stored d) [ none ↦ [] | some ts ↦ ts ])
  pub insert :
      (a b c e : Value R) (t : Text) (ts : List Text) (d : D)
      → stored d ≡ some ts
      → ((n : ℕ)
          → (sqlite.execute insert_sql (a ∷ b ∷ c ∷ e ∷ text t ∷ []) d).0 ≡ ok n
          → stored (sqlite.execute insert_sql (a ∷ b ∷ c ∷ e ∷ text t ∷ []) d).1 ≡ some (t ∷ ts))

-- A schema whose stored text reads back.
pub record IsStorable (s : SchemaDef) : Type 0 where
  pub normal : IsNormal s
  pub clean : All IsCleanTable s.tables

abbrev pub head_of : {A : Type 0} → List A → Option A
head_of [] = none
head_of (x ∷ xs) = some x

module _ {S R Row D : Type 0} (sqlite : Sqlite S R Row D) (history : HistoryTable sqlite) where
  open history use {stored}

  -- The table has the texts of these schemas; a missing table has none.
  pub data Represents (d : D) (schemas : List SchemaDef) : Type 0 where
    missing : stored d ≡ none → schemas ≡ [] → Represents d schemas
    present : stored d ≡ some (map canonical_string schemas) → Represents d schemas

  exists_value : (b : Bool) → not (is_number 0 (pos (if b then 1 else 0))) ≡ b
  exists_value true = refl
  exists_value false = refl

  exists_lem : (w : World D) → (history_table_exists sqlite w).0 ≡ some (ok (is_some (stored w.db)))
  unfolding history_table_exists query_row query_optional query_rows first_row found_row ◌>>=◌ lift
  exists_lem w =
      let (row, e, f) = history.exists w.db in
      rw (e, then_of, f) (ap (λ b. some (ok b)) (exists_value (is_some (stored w.db))))

  -- What the latest row gives, where the table exists.
  latest_lem :
      (w : World D) (schemas : List SchemaDef)
      → stored w.db ≡ some (map canonical_string schemas)
      → All IsStorable schemas
      → ((query_optional sqlite latest_query [] (sqlite.text_at 0) >>= λ s. lift (read_schema s))
          w).0
        ≡ some (ok (head_of schemas))
  unfolding query_optional query_rows first_row ◌>>=◌ lift read_schema
  latest_lem w [] h storable = rw (history.latest_of_none w.db h, then_of) refl
  latest_lem w (s ∷ schemas) h storable =
      let (row, e, f) = history.latest w.db (canonical_string s) (map canonical_string schemas) h in
      let back = from_canonical-canonical_string {S = S} s storable.0.normal storable.0.clean in
      rw (e, then_of, f, back) refl

  load_after :
      (b : Bool) (r : Option (Result S Bool) × World D) (schemas : List SchemaDef)
      → r.0 ≡ some (ok b)
      → ((b ≡ true) × (stored r.1.db ≡ some (map canonical_string schemas)))
        ⊎ ((b ≡ false) × (schemas ≡ []))
      → All IsStorable schemas
      → (then_of (load_of sqlite) r).0 ≡ some (ok (head_of schemas))
  unfolding branch lift load_of
  load_after b (none, w) schemas e h storable = cc
  load_after b (some (err x), w) schemas e h storable = cc
  load_after b (some (ok true), w) schemas e (inl (t, k)) storable = latest_lem w schemas k storable
  load_after b (some (ok false), w) schemas e (inl (t, k)) storable = cc
  load_after b (some (ok false), w) schemas e (inr (t, k)) storable =
      ap (λ x. some (ok (head_of x))) (sym k)
  load_after b (some (ok true), w) schemas e (inr (t, k)) storable = cc

  is_some_cases :
      (w : World D) (schemas : List SchemaDef)
      → Represents w.db schemas
      → ((is_some (stored w.db) ≡ true) × (stored w.db ≡ some (map canonical_string schemas)))
        ⊎ ((is_some (stored w.db) ≡ false) × (schemas ≡ []))
  is_some_cases w schemas (missing gone empty) = inr (ap is_some gone, empty)
  is_some_cases w schemas (present there) = inl (ap is_some there, there)

  history_table_exists-ReadsOnly : ReadsOnly (history_table_exists sqlite)
  unfolding history_table_exists
  history_table_exists-ReadsOnly = search (reading, query_row-ReadsOnly)

  -- The latest schema is the first of those that the table represents.
  pub load_latest_lem :
      (w : World D) (schemas : List SchemaDef)
      → Represents w.db schemas
      → All IsStorable schemas
      → (load_latest_target_schema sqlite w).0 ≡ some (ok (head_of schemas))
  unfolding load_latest_target_schema ◌>>=◌
  load_latest_lem w schemas h storable =
      let db = ap (λ (v : World D). v.db) (kept history_table_exists-ReadsOnly w) in
      load_after (is_some (stored w.db)) (history_table_exists sqlite w) schemas (exists_lem w)
        (subst
          (λ d.
            ((is_some (stored w.db) ≡ true) × (stored d ≡ some (map canonical_string schemas)))
            ⊎ ((is_some (stored w.db) ≡ false) × (schemas ≡ [])))
          (sym db) (is_some_cases w schemas h))
        storable
