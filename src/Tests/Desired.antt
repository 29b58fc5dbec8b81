-- ===== src/Tests/Desired.antt =====
-- The schema that two models ask for.
use seekwel.Prelude.{ℕ, ◌≡◌, refl, true, none, some, [], ◌∷◌, codes, Text, le, ◌==◌}
use seekwel.Prelude.Sorting.{sort_by}
use seekwel.Errors.{ok}
use seekwel.Query.Plan.{ModelInfo}
use seekwel.Schema.Types.{TableDef}
use seekwel.Schema.Normalize.{normalized}
use seekwel.Schema.Desired.{
  new_builder, add_model, build_schema, registered, registered_tables, table_for_model,
}

abbrev model : Text → ModelInfo
model name = record {
  table_name = name;
  primary_key = record { name = codes "id"; sql_type = codes "INTEGER"; auto_increment = true };
  columns = [];
}

abbrev table : Text → TableDef
table name = record {
  name = name;
  primary_key = record { name = codes "id"; sql_type = codes "INTEGER" };
  columns = [];
  indexes = [];
}

-- The schema is the same whichever model is added first.
in_order :
    build_schema {S = ℕ}
      (add_model (model (codes "pet")) [] (add_model (model (codes "person")) [] new_builder))
    ≡ ok (record { tables = table (codes "person") ∷ table (codes "pet") ∷ [] })
unfolding build_schema add_model table_for_model new_builder normalized sort_by le ◌==◌
in_order = refl

out_of_order :
    build_schema {S = ℕ}
      (add_model (model (codes "person")) [] (add_model (model (codes "pet")) [] new_builder))
    ≡ ok (record { tables = table (codes "person") ∷ table (codes "pet") ∷ [] })
unfolding build_schema add_model table_for_model new_builder normalized sort_by le ◌==◌
out_of_order = refl

-- The entry of the sentinel builds no table.
sentinel_skipped :
    (registered (none ∷ some (table (codes "pet")) ∷ [])).tables ≡ table (codes "pet") ∷ []
unfolding registered registered_tables
sentinel_skipped = refl
