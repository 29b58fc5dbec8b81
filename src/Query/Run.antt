-- ===== src/Query/Run.antt =====
-- The methods of `QueryDsl` in src/model/query.rs that run a query. `plan` is what `into_query_plan`
-- returns, `from_row` the generated closure on a row.
use seekwel.Prelude.{ℕ, ◌-◌, ◌^◌, Bool, Option, List, is_some}
use seekwel.Prelude.Integers.{ℤ, pos, negsuc}
use seekwel.Errors.{Result}
use seekwel.Connection.Value.{Value}
use seekwel.Connection.Access
use seekwel.Connection.Access.{with_read}
use seekwel.Connection.Act.{
  Sqlite, Act, ◌>>=◌, ◌>>◌, lift, pure, query_all, query_optional, query_row,
}
use seekwel.Query.Plan.{QueryPlan, all_query, first_query, count_query, exists_query}

-- `as u64`, and `as usize`, of a value of `i64`.
unfoldable pub as_u64 : ℤ → ℕ
as_u64 (pos n) = n
as_u64 (negsuc n) = 2 ^ 64 - 1 - n

module _ {S R Row D A : Type 0} (sqlite : Sqlite S R Row D) (from_row : Row → Result S A)
    (plan : Result S (QueryPlan (Value R))) where
  unfoldable pub all : Act S D (List A)
  all =
      Access.get >> lift plan >>= λ p. with_read (query_all sqlite (all_query p) p.params from_row)

  unfoldable pub first : Act S D (Option A)
  first = Access.get >> lift plan >>= λ p.
      with_read (query_optional sqlite (first_query p) p.params from_row)

  unfoldable pub count : Act S D ℕ
  unfolding as_u64
  count = Access.get >> lift plan >>= λ p.
      with_read (query_row sqlite (count_query p) p.params (sqlite.integer_at 0)) >>= λ n.
      pure (as_u64 n)

  unfoldable pub exists : Act S D Bool
  exists = Access.get >> lift plan >>= λ p.
      with_read (query_optional sqlite (exists_query p) p.params (sqlite.integer_at 0)) >>= λ found.
      pure (is_some found)
