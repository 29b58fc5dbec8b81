-- ===== src/Model/Association/HasManyQuery.antt =====
-- `HasManyQuery` of src/model/association/has_many.rs: a query in the scope of a parent.
pub mod Scope
use seekwel.Prelude.{ℕ, ◌≡◌, refl, sym, ◌∙◌, Option, none, some, List, [], ◌∷◌, Text, codes}
use seekwel.Errors.{Result, ok, err, ◌>>=◌}
use seekwel.Query.Comparison.{Comparison}
use seekwel.Query.Expression.{QueryExpression, empty, both, either, combine_clauses, into_clause}
use seekwel.Query.Plan.{
  ModelInfo, Order, Query, and_query, or_query, order_query, limit_query, offset_query, QueryPlan,
  build_query_plan,
}

pub record HasManyQuery (S V : Type 0) : Type 0 where
  pub scope : Result S (Query V)
  pub filters : Option (Query V)

module _ {V : Type 0} where
  -- `match filters { Some(filters) => operation(filters, other), None => other }`
  abbrev filtered : (Query V → Query V → Query V) → Option (Query V) → Query V → Query V
  filtered operation none other = other
  filtered operation (some filters) other = operation filters other

  abbrev narrowed : Option (Query V) → Query V → Query V
  narrowed none scope = scope
  narrowed (some filters) scope = and_query scope filters

module _ {S V : Type 0} where
  unfoldable pub new_scoped : Result S (Query V) → HasManyQuery S V
  new_scoped scope = record { scope = scope; filters = none }

  unfoldable pub scoped_and : HasManyQuery S V → Query V → HasManyQuery S V
  scoped_and q other = record q { filters = some (filtered and_query q.filters other) }

  unfoldable pub scoped_or : HasManyQuery S V → Query V → HasManyQuery S V
  scoped_or q other = record q { filters = some (filtered or_query q.filters other) }

  unfoldable pub scoped_order : HasManyQuery S V → Order → HasManyQuery S V
  scoped_order q order = record q { scope = q.scope >>= λ scope. ok (order_query scope order) }

  unfoldable pub scoped_limit : HasManyQuery S V → ℕ → HasManyQuery S V
  scoped_limit q n = record q { scope = q.scope >>= λ scope. ok (limit_query scope n) }

  unfoldable pub scoped_offset : HasManyQuery S V → ℕ → HasManyQuery S V
  scoped_offset q n = record q { scope = q.scope >>= λ scope. ok (offset_query scope n) }

  unfoldable pub scoped_plan : ModelInfo → HasManyQuery S V → Result S (QueryPlan V)
  scoped_plan model q = q.scope >>= λ scope. build_query_plan model (narrowed q.filters scope)

-- A call on a query in a scope.
pub data Refinement (V : Type 0) : Type 0 where
  also or_else : Query V → Refinement V
  ordered : Order → Refinement V
  limited skipping : ℕ → Refinement V

module _ {S V : Type 0} where
  unfoldable pub refine : HasManyQuery S V → Refinement V → HasManyQuery S V
  unfolding scoped_and scoped_or scoped_order scoped_limit scoped_offset
  refine q (also other) = scoped_and q other
  refine q (or_else other) = scoped_or q other
  refine q (ordered order) = scoped_order q order
  refine q (limited n) = scoped_limit q n
  refine q (skipping n) = scoped_offset q n

  unfoldable pub refine_each : HasManyQuery S V → List (Refinement V) → HasManyQuery S V
  unfolding refine
  refine_each q [] = q
  refine_each q (r ∷ rs) = refine_each (refine q r) rs

-- The condition that the calls ask for, without the one of the scope: `and` and `or` from left to
-- right, where the first has nothing to its left.
unfoldable pub condition :
    {V : Type 0} → Option (QueryExpression V) → List (Refinement V) → QueryExpression V
condition none [] = empty
condition (some e) [] = e
condition none (also other ∷ rs) = condition (some other.expression) rs
condition (some e) (also other ∷ rs) = condition (some (both e other.expression)) rs
condition none (or_else other ∷ rs) = condition (some other.expression) rs
condition (some e) (or_else other ∷ rs) = condition (some (either e other.expression)) rs
condition e (ordered order ∷ rs) = condition e rs
condition e (limited n ∷ rs) = condition e rs
condition e (skipping n ∷ rs) = condition e rs
