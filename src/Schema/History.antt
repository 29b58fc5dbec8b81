-- ===== src/Schema/History.antt =====
-- src/schema/history.rs: the table of the schemas that were applied.
pub mod Latest
pub mod Recorded
use seekwel.Prelude.{Bool, not, Option, none, some, List, [], ◌∷◌, ◌++◌, Text, codes}
use seekwel.Prelude.Integers.{pos, is_number}
use seekwel.Errors
use seekwel.Errors.{Result, ok}
use seekwel.Connection.Value.{Value, text, integer}
use seekwel.Connection.Act.{
  Sqlite, Act, ◌>>=◌, ◌>>◌, lift, pure, branch, run_batch, run_execute, query_row, query_optional,
}
use seekwel.Schema.Types.{SchemaDef, artifact_version, history_table}
use seekwel.Schema.Canonical.{canonical_string, from_canonical}

abbrev pub exists_query : Text
exists_query = codes "SELECT EXISTS(SELECT 1 FROM sqlite_schema WHERE type = 'table' AND name = ?1)"

abbrev pub latest_query : Text
latest_query =
    codes "SELECT target_schema FROM " ++ (history_table ++ codes " ORDER BY id DESC LIMIT 1")

abbrev pub ensure_sql : Text
ensure_sql =
    codes "CREATE TABLE IF NOT EXISTS "
    ++ (history_table
        ++ codes
            " (id INTEGER PRIMARY KEY, plan_id TEXT NOT NULL, artifact_version INTEGER NOT NULL, source_fingerprint TEXT NOT NULL, target_fingerprint TEXT NOT NULL, target_schema TEXT NOT NULL, created_at TEXT NOT NULL DEFAULT CURRENT_TIMESTAMP)")

abbrev pub insert_sql : Text
insert_sql =
    codes "INSERT INTO "
    ++ (history_table
        ++ codes
            " (plan_id, artifact_version, source_fingerprint, target_fingerprint, target_schema) VALUES (?1, ?2, ?3, ?4, ?5)")

-- `schema.as_deref().map(SchemaDef::from_canonical).transpose()`
unfoldable pub read_schema : {S : Type 0} → Option Text → Result S (Option SchemaDef)
read_schema none = ok none
read_schema (some s) = Errors.◌>>=◌ (from_canonical s) λ schema. ok (some schema)

module _ {S R Row D : Type 0} (sqlite : Sqlite S R Row D) where
  unfoldable pub history_table_exists : Act S D Bool
  history_table_exists =
      query_row sqlite exists_query (text history_table ∷ []) (sqlite.integer_at 0) >>= λ value.
      pure (not (is_number 0 value))

  load_of : Bool → Act S D (Option SchemaDef)
  unfolding read_schema
  load_of found = branch (not found) (pure none) (
      query_optional sqlite latest_query [] (sqlite.text_at 0) >>= λ schema.
      lift (read_schema schema))

  unfoldable pub load_latest_target_schema : Act S D (Option SchemaDef)
  unfolding load_of
  load_latest_target_schema = history_table_exists >>= load_of

  unfoldable pub ensure_history_table : Act S D (Unit {0})
  ensure_history_table = run_batch sqlite ensure_sql

  abbrev pub history_row : Text → Text → Text → SchemaDef → List (Value R)
  history_row plan_id source_fingerprint target_fingerprint target =
      text plan_id
      ∷ integer (pos artifact_version)
      ∷ text source_fingerprint
      ∷ text target_fingerprint
      ∷ text (canonical_string target)
      ∷ []

  unfoldable pub record_success : Text → Text → Text → SchemaDef → Act S D (Unit {0})
  record_success plan_id source_fingerprint target_fingerprint target =
      ensure_history_table
      >> (run_execute sqlite insert_sql
            (history_row plan_id source_fingerprint target_fingerprint target)
          >>= λ changed. pure tt)
