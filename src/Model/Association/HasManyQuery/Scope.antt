-- ===== src/Model/Association/HasManyQuery/Scope.antt =====
-- A query of an association stays in the scope of its parent.
use seekwel.Prelude.{◌≡◌, refl, Option, none, some, List, [], ◌∷◌, Text, codes}
use seekwel.Errors.{Result, ok, err}
use seekwel.Query.Expression.{QueryExpression, both, combine_clauses, into_clause}
use seekwel.Query.Plan.{
  ModelInfo, Query, QueryPlan, and_query, or_query, order_query, limit_query, offset_query,
}
use seekwel.Query.Plan.Built.{build_query_plan-ok}
use seekwel.Model.Association.HasManyQuery.{
  new_scoped, scoped_plan, Refinement, also, or_else, ordered, limited, skipping, refine,
  refine_each, condition, scoped_and, scoped_or, scoped_order, scoped_limit, scoped_offset,
}

expression_of : {V : Type 0} → Option (Query V) → Option (QueryExpression V)
expression_of none = none
expression_of (some q) = some q.expression

module _ (S : Type 0) {V : Type 0} (model : ModelInfo) (plan : QueryPlan V) (clause : Text)
    (bound : List V) where
  -- The plan has the clause of the scope, and of a condition behind it.
  abbrev Narrows : QueryExpression V → Type 0
  Narrows e =
      (rest : Option Text) × (into_clause {S = S} e bound ≡ (ok rest, plan.params))
      × (plan.clause ≡ combine_clauses (some clause) rest (codes "AND"))

  both_lem :
      (r : Result S (Option Text) × List V) (e scope : QueryExpression V)
      → into_clause {S = S} e bound ≡ r
      → into_clause {S = S} scope [] ≡ (ok (some clause), bound)
      → into_clause {S = S} (both scope e) [] ≡ (ok plan.clause, plan.params)
      → Narrows e
  both_lem (ok rest, params) e scope k s h =
      let rendered : into_clause {S = S} (both scope e) []
          ≡ (ok (combine_clauses (some clause) rest (codes "AND")), params) =
        unfold into_clause in rw (s, k) refl in
      (rest, cc, cc)
  both_lem (err x, params) e scope k s h =
      let rendered : into_clause {S = S} (both scope e) [] ≡ (err x, params) =
        unfold into_clause in rw (s, k) refl in
      cc

  plan_of :
      (rs : List (Refinement V)) (scope : Query V) (filters : Option (Query V))
      → into_clause {S = S} scope.expression [] ≡ (ok (some clause), bound)
      → scoped_plan model (refine_each {S = S} (record { scope = ok scope; filters = filters }) rs)
        ≡ ok plan
      → Narrows (condition (expression_of filters) rs)
  unfolding refine_each refine condition expression_of scoped_and scoped_or scoped_order
      scoped_limit scoped_offset scoped_plan and_query or_query order_query limit_query offset_query
      into_clause combine_clauses
  plan_of [] scope none s h = let k = build_query_plan-ok model scope plan h in (none, cc, cc)
  plan_of [] scope (some q) s h =
      both_lem _ q.expression scope.expression refl s (build_query_plan-ok model _ plan h)
  plan_of (also other ∷ rs) scope none s h = plan_of rs scope (some other) s h
  plan_of (also other ∷ rs) scope (some q) s h = plan_of rs scope (some _) s h
  plan_of (or_else other ∷ rs) scope none s h = plan_of rs scope (some other) s h
  plan_of (or_else other ∷ rs) scope (some q) s h = plan_of rs scope (some _) s h
  plan_of (ordered order ∷ rs) scope none s h = plan_of rs _ none s h
  plan_of (ordered order ∷ rs) scope (some q) s h = plan_of rs _ (some q) s h
  plan_of (limited n ∷ rs) scope none s h = plan_of rs _ none s h
  plan_of (limited n ∷ rs) scope (some q) s h = plan_of rs _ (some q) s h
  plan_of (skipping n ∷ rs) scope none s h = plan_of rs _ none s h
  plan_of (skipping n ∷ rs) scope (some q) s h = plan_of rs _ (some q) s h

  -- The calls on a query of an association, of whatever kind and order, give a plan whose clause is the
  -- one of the scope, which binds its values first, and behind it with AND and in parentheses the
  -- one of the condition that the calls ask for, if it has one.
  pub scoped_clause :
      (rs : List (Refinement V)) (scope : Query V)
      → into_clause {S = S} scope.expression [] ≡ (ok (some clause), bound)
      → scoped_plan model (refine_each {S = S} (new_scoped (ok scope)) rs) ≡ ok plan
      → (rest : Option Text) × (into_clause {S = S} (condition none rs) bound
          ≡ (ok rest, plan.params))
        × (plan.clause ≡ combine_clauses (some clause) rest (codes "AND"))
  unfolding new_scoped expression_of
  scoped_clause rs scope s h = plan_of rs scope none s h
