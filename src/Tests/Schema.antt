-- ===== src/Tests/Schema.antt =====
-- src/schema at a schema with one table.
use seekwel.Prelude.{
  none, Bool, lines, split, join, ◌⊎◌, length, ◌≡◌, ◌≢◌, refl, ◌↔◌, true, false, some, [], ◌∷◌,
  ◌++◌, map, any, not, ◌||◌, codes, arith, ℕ, All, le, ◌==◌,
}
use seekwel.Prelude.Sorting.{sort_by, IsSorted}
use mathlib.Core.List.{Perm}
use seekwel.Prelude.Maps.{contains_key, insert_all, get}
use seekwel.Errors.{Result, ok, err}
use seekwel.Schema.Plan.{
  required_column_addition, drop_table, real_foreign_keys, dependent_trigger, op_is_destructive,
}
use seekwel.Schema.Names.{Any}
use seekwel.Schema.Apply.{quote_ident, retained_columns}
use seekwel.Schema.Apply.Quoting.{read_ident, read_ident-quote_ident}
use seekwel.Schema.Apply.Retained.{HasColumn, Carries, retained_columns_iff}
use seekwel.Prelude.Decimal.{hex}
use seekwel.Schema.Fingerprint.{stable_hash_hex, fnv1a64, utf8}
use seekwel.Schema.Fingerprint.Apart.{stable_hash_hex_apart}
use seekwel.Schema.Plan.{required_column_addition}
use seekwel.Schema.Affinity.{same_affinity, from_declared_type}
use seekwel.Connection.Log.{is_whitespace}
use seekwel.Schema.Json.{json_escape}
use seekwel.Schema.Json.RoundTrip.{read_json_string, read_json_string-json_escape}
use seekwel.Schema.Diff.{
  diff_table, rebuild_reasons, key_reasons, column_changes, column_reasons, removal_reasons,
  missing_keys, unwanted_indexes, wanted_indexes, ActualTable, DiffResult, diff, diff_parts,
  diff_tables, drop_tables, dependents, plan_op_sort_key, blocker_sort_key,
}
use seekwel.Schema.Diff.Unchanged.{live_tables, diff_unchanged}
use seekwel.Schema.Diff.Destruction.{needs_rebuild, desired_tables, diff_destructive}
use seekwel.Schema.Diff.Phases.{phases, names_in_order}
use seekwel.Schema.Diff.Order.{diff_in_order}
use seekwel.Schema.Diff.Requirements.{is_required_addition, adds_required, diff_required}
use seekwel.Schema.Types.{TableDef, SchemaDef}
use seekwel.Schema.Normalize.{normalized, sort_table}
use seekwel.Schema.Normalize.Laws.{IsNormal, normalized-IsNormal, normalized_of_IsNormal}
use seekwel.Schema.Normalize.Exact.{IsWellNamed, normalized_iff, normalized-perm}
use seekwel.Schema.Canonical.{canonical_string, from_canonical}
use seekwel.Tests.Data.{id_key, active_column, person, people, people-IsNormal, people-IsClean}
use seekwel.Schema.Canonical.RoundTrip.{from_canonical-canonical_string}

from_canonical-canonical_string_example :
    from_canonical {S = ℕ} (canonical_string people) ≡ ok people
from_canonical-canonical_string_example =
    from_canonical-canonical_string people people-IsNormal people-IsClean

normalized_iff_example : ((t : SchemaDef) × (normalized {S = ℕ} people ≡ ok t)) ↔ IsWellNamed people
normalized_iff_example = normalized_iff people

normalized-perm_example :
    Perm people.tables (map sort_table people.tables)
    × All
        (λ (u : TableDef).
          ((sort_table u).name ≡ u.name)
          × ((sort_table u).primary_key ≡ u.primary_key)
          × Perm (sort_table u).columns u.columns
          × Perm (sort_table u).indexes u.indexes)
        people.tables
normalized-perm_example =
    normalized-perm people people (normalized_of_IsNormal {S = ℕ} people people-IsNormal)

normalized-IsNormal_example : IsNormal people
normalized-IsNormal_example =
    normalized-IsNormal people people (normalized_of_IsNormal {S = ℕ} people people-IsNormal)

normalized_of_IsNormal_example : normalized {S = ℕ} people ≡ ok people
normalized_of_IsNormal_example = normalized_of_IsNormal people people-IsNormal

-- The live database has the table, with a trigger of another table that depends on it.
abbrev live_person : ActualTable
live_person = record {
  table = person;
  unsupported_inline_features = codes "collation" ∷ [];
  has_real_foreign_keys = true;
  dependent_views = [];
  dependent_external_triggers = codes "audit" ∷ [];
  replay_sql = [];
}

diff_unchanged_example :
    diff {S = ℕ} people (live_tables (live_person ∷ []))
    ≡ ok (record { source = people; ops = []; blockers = [] })
diff_unchanged_example = diff_unchanged (live_person ∷ []) people-IsNormal

-- What a plan to the empty schema holds.
abbrev dropped : DiffResult
dropped = record {
  source = people;
  ops = drop_table person ∷ [];
  blockers =
      real_foreign_keys (codes "person") ∷ dependent_trigger (codes "person") (codes "audit") ∷ [];
}

nothing_wanted : diff {S = ℕ} (record { tables = [] }) (live_tables (live_person ∷ [])) ≡ ok dropped
unfolding diff diff_parts diff_tables drop_tables dependents normalized sort_by le ◌==◌ insert_all
    get contains_key plan_op_sort_key blocker_sort_key
nothing_wanted = refl

diff_destructive_example : any op_is_destructive dropped.ops ≡ (
    any (needs_rebuild (live_tables (live_person ∷ []))) (desired_tables (record { tables = [] }))
    || any
        (λ e. not (contains_key (desired_tables (record { tables = [] })) e.0))
        (live_tables (live_person ∷ [])))
diff_destructive_example =
    diff_destructive (record { tables = [] }) (live_tables (live_person ∷ [])) dropped
      nothing_wanted

diff_in_order_example :
    (phases dropped.ops ≡ dropped.ops)
    × IsSorted names_in_order dropped.ops
    × Perm dropped.ops (diff_parts (record { tables = [] }) (live_tables (live_person ∷ []))).0
    × Perm dropped.blockers (diff_parts (record { tables = [] }) (live_tables (live_person ∷ []))).1
diff_in_order_example =
    diff_in_order (record { tables = [] }) (live_tables (live_person ∷ [])) dropped nothing_wanted

-- A quote, a line feed and a control character.
read_json_string-json_escape_example :
    read_json_string 9 (json_escape (97 ∷ 34 ∷ 10 ∷ 7 ∷ []) ++ 34 ∷ 44 ∷ [])
    ≡ some (97 ∷ 34 ∷ 10 ∷ 7 ∷ [], 44 ∷ [])
read_json_string-json_escape_example =
    read_json_string-json_escape (97 ∷ 34 ∷ 10 ∷ 7 ∷ []) (44 ∷ []) 9 (omega arith)

-- A name with a quote in it.
read_ident-quote_ident_example :
    read_ident (quote_ident (97 ∷ 34 ∷ 98 ∷ []) ++ codes " TEXT")
    ≡ some (97 ∷ 34 ∷ 98 ∷ [], codes " TEXT")
read_ident-quote_ident_example = read_ident-quote_ident (97 ∷ 34 ∷ 98 ∷ []) (codes " TEXT") refl

-- The primary key of the desired table has another name.
abbrev renamed : TableDef
renamed = record person { primary_key = record { name = codes "uid"; sql_type = codes "INTEGER" } }

retained_columns_iff_example :
    Any (Carries (codes "id") (codes "uid")) (retained_columns person renamed) ↔ (
      Carries (codes "id") (codes "uid") (codes "id", codes "uid")
      ⊎ ((codes "id" ≡ codes "uid")
          × HasColumn (codes "id") person.columns
          × HasColumn (codes "id") renamed.columns))
retained_columns_iff_example = retained_columns_iff person renamed (codes "id") (codes "uid")

-- The published hash of the text `a`.
hash_of_a : stable_hash_hex (utf8 (codes "a")) ≡ codes "af63dc4c8601ec8c"
unfolding stable_hash_hex fnv1a64 utf8 hex
hash_of_a = refl

-- The texts `pat` and `pet`.
stable_hash_hex_apart_example :
    (length (stable_hash_hex ((112 ∷ []) ++ 97 ∷ (116 ∷ []))) ≡ 16)
    × (stable_hash_hex ((112 ∷ []) ++ 97 ∷ (116 ∷ []))
        ≢ stable_hash_hex ((112 ∷ []) ++ 101 ∷ (116 ∷ [])))
stable_hash_hex_apart_example =
    stable_hash_hex_apart (112 ∷ []) (116 ∷ []) 97 101 (omega arith, tt) (omega arith) (omega arith)
      (λ e. omega arith)

-- A default with a line feed in it: its stored text is refused.
abbrev multiline : SchemaDef
multiline = record {
  tables =
      record {
        name = codes "note";
        primary_key = id_key;
        columns =
            record {
              name = codes "body";
              sql_type = codes "TEXT";
              nullable = false;
              default_sql = some (39 ∷ 97 ∷ 10 ∷ 98 ∷ 39 ∷ []);
            }
            ∷ [];
        indexes = [];
      }
      ∷ [];
}

refuses : Result ℕ SchemaDef → Bool
refuses (ok s) = false
refuses (err e) = true

multiline_is_refused : refuses (from_canonical (canonical_string multiline)) ≡ true
unfolding refuses from_canonical canonical_string lines split join ◌==◌
multiline_is_refused = refl

-- The table with one more column, which is not null and has no default.
abbrev nicknamed : SchemaDef
nicknamed = record {
  tables =
      record person {
        columns =
            active_column
            ∷ record {
              name = codes "nick";
              sql_type = codes "TEXT";
              nullable = false;
              default_sql = none;
            }
            ∷ [];
      }
      ∷ [];
}

abbrev blocked : DiffResult
blocked = record {
  source = people;
  ops = [];
  blockers = required_column_addition (codes "person") (codes "nick") ∷ [];
}

nick_is_missing : diff {S = ℕ} nicknamed (live_tables (live_person ∷ [])) ≡ ok blocked
unfolding diff normalized sort_by le ◌==◌ diff_parts diff_tables drop_tables dependents insert_all
    get contains_key plan_op_sort_key blocker_sort_key diff_table rebuild_reasons key_reasons
    same_affinity from_declared_type is_whitespace column_changes column_reasons removal_reasons
    missing_keys unwanted_indexes wanted_indexes
nick_is_missing = refl

diff_required_example :
    any is_required_addition blocked.blockers
    ≡ any (adds_required (live_tables (live_person ∷ []))) (desired_tables nicknamed)
diff_required_example =
    diff_required nicknamed (live_tables (live_person ∷ [])) blocked nick_is_missing
