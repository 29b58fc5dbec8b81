-- ===== src/Tests/Introspect.antt =====
-- What is read from the catalogue of a database, at concrete inputs.
use seekwel.Prelude.{◌≡◌, refl, ◌↔◌, true, false, [], ◌∷◌, map, Text, codes, ◌==◌}
use seekwel.Prelude.Search.{to_ascii_lowercase, to_ascii_uppercase, contains}
use seekwel.Schema.Introspect.Identifiers.{
  sql_references_identifier, Mentions, is_word, sql_references_identifier_iff,
}
use seekwel.Schema.Introspect.Actual.{actual_table}
use seekwel.Schema.Introspect.Actual.Managed.{rows_of, IsPlainSql, actual_table-rows_of}
use seekwel.Tests.Data.{id_key, active_column, name_index, person}

-- `sql_references_identifier` finds whole words and quoted names only.
references : sql_references_identifier (codes "SELECT * FROM Person;") (codes "person") ≡ true
unfolding sql_references_identifier to_ascii_lowercase contains ◌==◌ is_word
references = refl

references_part : sql_references_identifier (codes "SELECT 1 FROM persons") (codes "person") ≡ false
unfolding sql_references_identifier to_ascii_lowercase contains ◌==◌ is_word
references_part = refl

sql_references_identifier_iff_example :
    (sql_references_identifier (codes "SELECT * FROM Person;") (codes "person") ≡ true)
    ↔ Mentions
        (map to_ascii_lowercase (codes "SELECT * FROM Person;"))
        (map to_ascii_lowercase (codes "person"))
sql_references_identifier_iff_example =
    sql_references_identifier_iff (codes "SELECT * FROM Person;") (codes "person")

abbrev person_sql : Text
person_sql = codes "CREATE TABLE person (id INTEGER PRIMARY KEY)"

person_sql-IsPlainSql : IsPlainSql person_sql
unfolding contains to_ascii_uppercase
person_sql-IsPlainSql = record { check = refl; rowid = refl; generated = refl }

actual_table-rows_of_example :
    let actual =
      actual_table
        (codes "person")
        person_sql
        (rows_of id_key [] (active_column ∷ []))
        (name_index ∷ [])
        []
        []
        false in
    (actual.table ≡ person) × (actual.unsupported_inline_features ≡ [])
actual_table-rows_of_example =
    actual_table-rows_of (codes "person") person_sql id_key [] (active_column ∷ [])
      (name_index ∷ []) [] [] false refl tt ((λ h. cc), tt) person_sql-IsPlainSql
