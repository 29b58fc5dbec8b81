-- ===== src/Query/Plan/Built.antt =====
-- What `build_query_plan` takes from the expression of a query.
use seekwel.Prelude.{ℕ, ◌≡◌, ap, Option, List, [], Text}
use seekwel.Errors.{Result, ok, err}
use seekwel.Sql.Select.{OrderTerm}
use seekwel.Query.Expression.{into_clause}
use seekwel.Query.Plan.{ModelInfo, Query, QueryPlan, plan_with, build_query_plan}

module _ {S V : Type 0} where
  clause_and_params : Result S (QueryPlan V) → Result S (Option Text) × List V
  clause_and_params (ok plan) = (ok plan.clause, plan.params)
  clause_and_params (err e) = (err e, [])

  plan_with-ok :
      (model : ModelInfo) (ordering : List OrderTerm) (limit : Option ℕ) (offset : ℕ)
      (r : Result S (Option Text) × List V) (plan : QueryPlan V)
      → plan_with model ordering limit offset r ≡ ok plan
      → r ≡ (ok plan.clause, plan.params)
  unfolding plan_with clause_and_params
  plan_with-ok model ordering limit offset (err e, params) plan h = cc
  plan_with-ok model ordering limit offset (ok clause, params) plan h = ap clause_and_params h

  -- A plan has the clause of the query's expression, and the parameters that it binds.
  pub build_query_plan-ok :
      (model : ModelInfo) (q : Query V) (plan : QueryPlan V)
      → build_query_plan {S = S} model q ≡ ok plan
      → into_clause {S = S} q.expression [] ≡ (ok plan.clause, plan.params)
  unfolding build_query_plan
  build_query_plan-ok model q plan h =
      plan_with-ok model q.ordering q.limit q.offset (into_clause q.expression []) plan h
