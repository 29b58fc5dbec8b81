-- ===== src/Tests/Query.antt =====
-- src/model/query and src/sql/mutation.rs at a model with two columns.
use seekwel.Prelude.{
  ℕ, ◌+◌, ◌++◌, ◌==◌, ◌≡◌, All, Lacks, length, map, refl, false, true, Option, none, some, List, [],
  ◌∷◌, Text, codes, arith,
}
use seekwel.Errors.{err, ok, invalid_query}
use seekwel.Model.Types.{ColumnDef, PrimaryKeyDef}
use seekwel.Sql.Mutation.{insert, update_by_primary_key}
use seekwel.Sql.Placeholders.{numbers_from}
use seekwel.Sql.Placeholders.Assigned.{
  IsName, numbered, sets_of, read_update, read_update-update_by_primary_key,
}
use seekwel.Sql.Placeholders.Inserted.{IsEntry, read_insert, read_insert-insert}
use seekwel.Query.Comparison.{eq, gt, in_list, single, many}
use seekwel.Query.Expression.{QueryExpression, predicate, both, either, into_clause}
use seekwel.Query.Clauses.Whole.{clause_parameters, into_clause_binds}
use seekwel.Query.Clauses.Refusals.{into_clause_refuses}

abbrev columns : List ColumnDef
columns =
    record { name = codes "name"; sql_type = codes "TEXT"; nullable = false; default_sql = none }
    ∷ record { name = codes "age"; sql_type = codes "INTEGER"; nullable = true; default_sql = none }
    ∷ []

abbrev key : PrimaryKeyDef
key = record { name = codes "id"; sql_type = codes "INTEGER"; auto_increment = true }

key-IsName : IsName key.name
unfolding ◌==◌
key-IsName = record { unbroken = omega arith; plain = omega arith; column = refl }

columns-AreNames : All (λ (c : ColumnDef). IsName c.name) columns
unfolding ◌==◌
columns-AreNames = (
  record { unbroken = omega arith; plain = omega arith; column = refl },
  (record { unbroken = omega arith; plain = omega arith; column = refl }, tt),
)

read_update-update_by_primary_key_example :
    read_update (update_by_primary_key (codes "person") key columns) ≡ (
      codes "UPDATE" ∷ codes "person" ∷ codes "SET" ∷ [],
      record {
        sets = sets_of (codes "id") columns;
        name = codes "id";
        sign = codes "=";
        values = ((length columns + 1) ∷ []) ∷ [];
      },
    )
read_update-update_by_primary_key_example =
    read_update-update_by_primary_key (codes "person") key columns (omega arith) key-IsName
      columns-AreNames

-- The second column has the second parameter, the key the third.
sets_read :
    sets_of (codes "id") columns
    ≡ (codes "name", codes "=", 1 ∷ []) ∷ (codes "age", codes "=", 2 ∷ []) ∷ []
unfolding sets_of numbered
sets_read = refl

abbrev age : ColumnDef
age = record { name = codes "age"; sql_type = codes "INTEGER"; nullable = true; default_sql = none }

unbroken-IsEntry :
    (name : Text) → Lacks 32 name → Lacks 44 name → Lacks 40 name → Lacks 41 name → IsEntry name
unbroken-IsEntry name a b c d = record { unbroken = a; no_comma = b; no_left = c; no_right = d }

read_insert-insert_example : read_insert (insert (codes "person") (age ∷ [])) ≡ record {
  target = codes "INSERT INTO " ++ (codes "person" ++ codes " ");
  names = map (λ (d : ColumnDef). d.name) (age ∷ []);
  word = codes " VALUES ";
  values = map (λ k. k ∷ []) (numbers_from (length (age ∷ [])) 1);
}
read_insert-insert_example =
    read_insert-insert (codes "person") age []
      (unbroken-IsEntry (codes "person") (omega arith) (omega arith) (omega arith) (omega arith))
      (unbroken-IsEntry (codes "age") (omega arith) (omega arith) (omega arith) (omega arith), tt)

-- `age > 30 AND (name IN (1, 2) OR name = NULL)`, with numbers for values.
abbrev adults : QueryExpression ℕ
adults = both (predicate (codes "age") (record { operator = gt; value = single (some 30) })) (
    either (predicate (codes "name") (record { operator = in_list; value = many (1 ∷ 2 ∷ []) }))
      (predicate (codes "name") (record { operator = eq; value = single none })))

into_clause_binds_example :
    (clause : Option Text) × (into_clause {S = ℕ} adults [] ≡ (ok clause, 30 ∷ 1 ∷ 2 ∷ []))
    × (clause_parameters clause ≡ numbers_from 3 1)
into_clause_binds_example = into_clause_binds adults [] refl (omega arith)

-- `name = 1 AND age > NULL`.
abbrev above_null : QueryExpression ℕ
above_null =
    both (predicate (codes "name") (record { operator = eq; value = single (some 1) }))
      (predicate (codes "age") (record { operator = gt; value = single none }))

into_clause_refuses_example :
    (message : Text) × (params' : List ℕ) × (into_clause {S = ℕ} above_null []
      ≡ (err (invalid_query message), params'))
into_clause_refuses_example = into_clause_refuses above_null [] refl
