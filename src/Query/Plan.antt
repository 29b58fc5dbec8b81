-- ===== src/Query/Plan.antt =====
-- Query values and query plans: src/model/query.rs and src/model/query/eager.rs.
pub mod Built
use seekwel.Prelude.{
  ℕ, ◌+◌, ◌-◌, ◌^◌, min, Option, none, some, List, [], ◌∷◌, ◌++◌, Text, ltb, if◌then◌else◌,
}
use seekwel.Errors.{Result, ok, err}
use seekwel.Model.Types.{ColumnDef, PrimaryKeyDef}
use seekwel.Sql.Select.{
  OrderTerm, Projection, model_columns, one, Select, select_sql, count_sql, order_by_clause, column,
  asc, desc, raw,
}
use seekwel.Query.Comparison.{Comparison}
use seekwel.Query.Expression.{QueryExpression, empty, predicate, both, either, into_clause}

-- What the generated `Model` implementation says of its table.
pub record ModelInfo : Type 0 where
  pub table_name : Text
  pub primary_key : PrimaryKeyDef
  pub columns : List ColumnDef

-- `Order`: its terms.
pub record Order : Type 0 where
  pub terms : List OrderTerm

unfoldable pub order_asc : Text → Order
order_asc name = record { terms = column name asc ∷ [] }

unfoldable pub order_desc : Text → Order
order_desc name = record { terms = column name desc ∷ [] }

unfoldable pub order_raw : Text → Order
order_raw sql = record { terms = raw sql ∷ [] }

unfoldable pub order_then : Order → Order → Order
order_then a b = record { terms = a.terms ++ b.terms }

-- `Query<M>`.
pub record Query (V : Type 0) : Type 0 where
  pub expression : QueryExpression V
  pub ordering : List OrderTerm
  pub limit : Option ℕ
  pub offset : ℕ

module _ {V : Type 0} where
  unfoldable pub root : Query V
  root = record { expression = empty; ordering = []; limit = none; offset = 0 }

  unfoldable pub new_query : Text → Comparison V → Query V
  new_query name comparison = record {
    expression = predicate name comparison;
    ordering = [];
    limit = none;
    offset = 0;
  }

  unfoldable pub and_query : Query V → Query V → Query V
  and_query q other = record q { expression = both q.expression other.expression }

  unfoldable pub or_query : Query V → Query V → Query V
  or_query q other = record q { expression = either q.expression other.expression }

  unfoldable pub order_query : Query V → Order → Query V
  order_query q order = record q { ordering = q.ordering ++ order.terms }

  unfoldable pub limit_query : Query V → ℕ → Query V
  limit_query q n = record q { limit = some n }

  unfoldable pub offset_query : Query V → ℕ → Query V
  offset_query q n = record q { offset = n }

pub record QueryPlan (V : Type 0) : Type 0 where
  pub table_name : Text
  pub primary_key_name : Text
  pub columns : List ColumnDef
  pub clause : Option Text
  pub order_clause : Option Text
  pub params : List V
  pub limit : Option ℕ
  pub offset : ℕ

module _ {S V : Type 0} where
  plan_with :
      ModelInfo
      → List OrderTerm
      → Option ℕ
      → ℕ
      → Result S (Option Text) × List V
      → Result S (QueryPlan V)
  plan_with model ordering limit offset (err e, params) = err e
  plan_with model ordering limit offset (ok clause, params) = ok (record {
    table_name = model.table_name;
    primary_key_name = model.primary_key.name;
    columns = model.columns;
    clause = clause;
    order_clause = order_by_clause ordering;
    params = params;
    limit = limit;
    offset = offset;
  })

  -- `into_query_plan`, which calls this at the fields of the query.
  unfoldable pub build_query_plan : ModelInfo → Query V → Result S (QueryPlan V)
  unfolding plan_with
  build_query_plan model q =
      plan_with model q.ordering q.limit q.offset (into_clause q.expression [])

-- `usize::MAX` on a 64-bit machine.
abbrev pub usize_max : ℕ
usize_max = 2 ^ 64 - 1

unfoldable pub saturating_add : ℕ → ℕ → ℕ
saturating_add a b = min (a + b) usize_max

module _ {V : Type 0} (plan : QueryPlan V) where
  -- `(offset > 0).then_some(offset)`
  abbrev pub nonzero : ℕ → Option ℕ
  nonzero offset = if ltb 0 offset then some offset else none

  unfoldable pub plan_select : Projection → Option ℕ → ℕ → Select
  plan_select projection limit offset = record {
    projection = projection;
    table_name = plan.table_name;
    clause = plan.clause;
    order_clause = plan.order_clause;
    limit = limit;
    offset = if ltb 0 offset then some offset else none;
  }

  -- The statement for the rows of the model in a window.
  unfoldable pub rows_query : Option ℕ → ℕ → Text
  rows_query limit offset =
      select_sql (plan_select (model_columns plan.primary_key_name plan.columns) limit offset)

  unfoldable pub all_query : Text
  unfolding rows_query
  all_query = rows_query plan.limit plan.offset

  -- A limit, and no more than `n`.
  abbrev pub at_most : Option ℕ → ℕ → ℕ
  at_most none n = n
  at_most (some limit) n = min limit n

  unfoldable pub first_query : Text
  unfolding rows_query
  first_query = rows_query (some (at_most plan.limit 1)) plan.offset

  unfoldable pub count_query : Text
  count_query = count_sql (plan_select one plan.limit plan.offset)

  unfoldable pub exists_query : Text
  exists_query = select_sql (plan_select one (some (at_most plan.limit 1)) plan.offset)

  -- `saturating_sub` is the subtraction on ℕ.
  unfoldable pub remaining_limit : ℕ → Option ℕ
  remaining_limit consumed = elim plan.limit [ none ↦ none | some limit ↦ some (limit - consumed) ]

  unfoldable pub paged_query : ℕ → ℕ → Text
  unfolding rows_query remaining_limit saturating_add
  paged_query page_size consumed =
      rows_query (some (at_most (remaining_limit consumed) page_size))
        (saturating_add plan.offset consumed)
