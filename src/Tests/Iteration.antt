-- ===== src/Tests/Iteration.antt =====
-- src/model/query/lazy.rs and src/model/query/chunked.rs over a database of three rows.
use seekwel.Prelude.{
  ℕ, zero, suc, ◌+◌, ◌≤◌, ◌<◌, ◌≡◌, refl, ap, Option, none, some, List, [], ◌∷◌, map, Text, codes,
  ◌==◌, length, take, drop, All, arith, if◌then◌else◌,
}
use seekwel.Errors.{ok}
use seekwel.Prelude.Decimal.{decimal}
use seekwel.Sql.Render.{select_columns, column_names}
use seekwel.Sql.Select.{select_sql, select_body, projection_sql, append_limit_offset}
use seekwel.Query.Plan.{QueryPlan, rows_query, plan_select}
use seekwel.Query.Iteration.{Database, start, lazy_next, chunked_next, collect}
use seekwel.Query.Iteration.Windows.{Answers, first_row}
use seekwel.Query.Iteration.LazyRows.{lazy_collects}
use seekwel.Query.Iteration.ChunkedRows.{chunked_collects, flatten}

-- No clause and no limit, from the second row on.
abbrev plan : QueryPlan ℕ
plan = record {
  table_name = codes "t";
  primary_key_name = codes "id";
  columns = [];
  clause = none;
  order_clause = none;
  params = [];
  limit = none;
  offset = 1;
}

abbrev rows : List ℕ
rows = 7 ∷ 8 ∷ 9 ∷ []

-- The statements that the database knows, by their limits and offsets.
abbrev windows : List (ℕ × ℕ)
windows =
    (0, 0)
    ∷ (0, 1)
    ∷ (0, 2)
    ∷ (0, 3)
    ∷ (0, 4)
    ∷ (1, 0)
    ∷ (1, 1)
    ∷ (1, 2)
    ∷ (1, 3)
    ∷ (1, 4)
    ∷ (2, 0)
    ∷ (2, 1)
    ∷ (2, 2)
    ∷ (2, 3)
    ∷ (2, 4)
    ∷ []

abbrev lookup : List (ℕ × ℕ) → Text → List ℕ
lookup [] text = []
lookup ((limit, offset) ∷ rest) text =
    if rows_query plan (some limit) offset == text
    then take limit (drop offset rows)
    else lookup rest text

abbrev db : Database ℕ ℕ ℕ
db = record {
  get = ok tt;
  query_all = λ text params. ok (lookup windows text);
  query_optional = λ text params. ok (first_row (lookup windows text));
}

up_to_two : (P : ℕ → Type 0) → P 0 → P 1 → P 2 → (n : ℕ) → n ≤ 2 → P n
up_to_two P a b c zero h = a
up_to_two P a b c (suc zero) h = b
up_to_two P a b c (suc (suc zero)) h = c
up_to_two P a b c (suc (suc (suc n))) h = absurd (omega arith)

up_to_four : (P : ℕ → Type 0) → P 0 → P 1 → P 2 → P 3 → P 4 → (n : ℕ) → n ≤ 4 → P n
up_to_four P a b c d e zero h = a
up_to_four P a b c d e (suc zero) h = b
up_to_four P a b c d e (suc (suc n)) h = up_to_two (λ m. P (suc (suc m))) c d e n (omega arith)

abbrev IsKnown : ℕ → ℕ → Type 0
IsKnown limit offset =
    lookup windows (rows_query plan (some limit) offset) ≡ take limit (drop offset rows)

lookup-IsKnown : (limit : ℕ) → limit ≤ 2 → (offset : ℕ) → offset ≤ 4 → IsKnown limit offset
unfolding rows_query plan_select select_sql select_body projection_sql append_limit_offset
    select_columns column_names decimal ◌==◌ seekwel.Prelude.join
lookup-IsKnown =
    up_to_two (λ limit. (offset : ℕ) → offset ≤ 4 → IsKnown limit offset)
      (up_to_four (IsKnown 0) refl refl refl refl refl)
      (up_to_four (IsKnown 1) refl refl refl refl refl)
      (up_to_four (IsKnown 2) refl refl refl refl refl)

db-Answers : (most : ℕ) → most ≤ 2 → Answers db plan rows most
db-Answers most m = record {
  get = refl;
  query_all = λ limit offset h k. ap ok (lookup-IsKnown limit (omega arith) offset (omega arith));
  query_optional = λ limit offset h k.
      ap (λ l. ok (first_row l)) (lookup-IsKnown limit (omega arith) offset (omega arith));
}

lazy_collects_example : collect (lazy_next (λ n. []) db plan) 3 start [] ≡ some (ok 8 ∷ ok 9 ∷ [])
lazy_collects_example =
    lazy_collects (λ n. []) db plan rows (db-Answers 1 (omega arith)) (omega arith) 3 []
      (omega arith)

chunked_collects_example :
    (cs : List (List ℕ)) × (collect (chunked_next (λ n. []) db plan 2) 3 start []
      ≡ some (map ok cs))
    × (flatten cs ≡ 8 ∷ 9 ∷ [])
    × All (λ c. (0 < length c) × (length c ≤ 2)) cs
chunked_collects_example =
    chunked_collects (λ n. []) db plan rows 2 3 [] (db-Answers 2 (omega arith)) (omega arith)
      (omega arith) (omega arith)
