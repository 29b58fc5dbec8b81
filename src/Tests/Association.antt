-- ===== src/Tests/Association.antt =====
-- Pets of a person.
use seekwel.Prelude.{ℕ, ◌≡◌, refl, true, Option, none, some, List, [], ◌∷◌, ◌++◌, Text, codes}
use seekwel.Prelude.Integers.{pos}
use seekwel.Errors.{Result, ok}
use seekwel.Connection.Value.{Value, integer}
use seekwel.Connection.Transaction.{World}
use seekwel.Connection.Access.{get, with_read, manager}
use seekwel.Connection.Act.{Sqlite, lift, ◌>>=◌, query_all, query_rows}
use seekwel.Prelude.Decimal.{decimal}
use seekwel.Sql.Render.{placeholder}
use seekwel.Sql.Select.{order_by_clause}
use seekwel.Query.Comparison.{eq, single, comparison_clause}
use seekwel.Query.Expression.{into_clause, combine_clauses}
use seekwel.Query.Plan.{
  ModelInfo, Query, QueryPlan, and_query, or_query, limit_query, new_query, build_query_plan,
}
use seekwel.Query.Run.{all}
use seekwel.Model.Association.HasManyQuery.{
  new_scoped, scoped_plan, Refinement, also, or_else, limited, refine_each, condition,
}
use seekwel.Model.Association.HasManyQuery.Scope.{scoped_clause}
use seekwel.Model.Association.HasMany.{HasMany, new_bound, load}
use seekwel.Model.Association.HasMany.Cache.{append_each, load-append_each}

-- The database is the numbers of the pets, which are the rows; every pet is the person's.
abbrev store : Sqlite ℕ ℕ ℕ (List ℕ)
store = record {
  execute_batch = λ sql d. (ok tt, d);
  execute = λ sql params d. (ok 1, d);
  query = λ sql params d. ok (ok 3 ∷ ok 5 ∷ []);
  text_at = λ i row. ok [];
  optional_text_at = λ i row. ok none;
  integer_at = λ i row. ok (pos row);
  no_rows = 0;
  show_real = λ x. [];
}

abbrev pet : ModelInfo
pet = record {
  table_name = codes "pet";
  primary_key = record { name = codes "id"; sql_type = codes "INTEGER"; auto_increment = true };
  columns = [];
}

abbrev equals : Text → ℕ → Query (Value ℕ)
equals column n =
    new_query column (record { operator = eq; value = single (some (integer (pos n))) })

abbrev pets : HasMany ℕ (Value ℕ) (List ℕ) ℕ ℕ
pets = new_bound 7 (record {
  query_for_parent = λ id. ok (equals (codes "owner_id") id);
  append_for_parent = λ id builder. lift (ok builder);
})

abbrev world : World (List ℕ)
world = record { initialized = true; state = none; log = []; db = [] }

loads : (load store pet ok pets world).0 ≡ some (ok (3 ∷ 5 ∷ []))
unfolding load new_bound all ◌>>=◌ get manager lift scoped_plan build_query_plan into_clause
    new_query comparison_clause with_read query_all query_rows
loads = refl

abbrev loaded : Option (Result ℕ (List ℕ)) × World (List ℕ) × HasMany ℕ (Value ℕ) (List ℕ) ℕ ℕ
loaded = load store pet ok pets world

abbrev appended : List ℕ × World (List ℕ) × HasMany ℕ (Value ℕ) (List ℕ) ℕ ℕ
appended = append_each (8 ∷ 9 ∷ []) loaded.2 loaded.1

load-append_each_example :
    load store pet ok appended.2 appended.1
    ≡ (some (ok ((3 ∷ 5 ∷ []) ++ appended.0)), appended.1, appended.2)
load-append_each_example = load-append_each store pet ok (8 ∷ 9 ∷ []) pets world (3 ∷ 5 ∷ []) loads

-- `owner_id = 7`, then `name = 1`, or `name = 2`, at most 4 rows.
abbrev calls : List (Refinement (Value ℕ))
calls = also (equals (codes "name") 1) ∷ or_else (equals (codes "name") 2) ∷ limited 4 ∷ []

abbrev plan : QueryPlan (Value ℕ)
plan = record {
  table_name = codes "pet";
  primary_key_name = codes "id";
  columns = [];
  clause = some (codes "(owner_id = ?1) AND ((name = ?2) OR (name = ?3))");
  order_clause = none;
  params = integer (pos 7) ∷ integer (pos 1) ∷ integer (pos 2) ∷ [];
  limit = some 4;
  offset = 0;
}

planned :
    scoped_plan {S = ℕ} pet (refine_each (new_scoped (ok (equals (codes "owner_id") 7))) calls)
    ≡ ok plan
unfolding scoped_plan refine_each new_scoped build_query_plan into_clause and_query limit_query
    new_query comparison_clause or_query combine_clauses order_by_clause placeholder decimal
planned = refl

scope_clause :
    into_clause {S = ℕ} (equals (codes "owner_id") 7).expression []
    ≡ (ok (some (codes "owner_id = ?1")), integer (pos 7) ∷ [])
unfolding into_clause new_query comparison_clause placeholder decimal
scope_clause = refl

scoped_clause_example :
    (rest : Option Text) × (into_clause {S = ℕ} (condition none calls) (integer (pos 7) ∷ [])
      ≡ (ok rest, plan.params))
    × (plan.clause ≡ combine_clauses (some (codes "owner_id = ?1")) rest (codes "AND"))
scoped_clause_example =
    scoped_clause ℕ pet plan (codes "owner_id = ?1") (integer (pos 7) ∷ []) calls
      (equals (codes "owner_id") 7) scope_clause planned
