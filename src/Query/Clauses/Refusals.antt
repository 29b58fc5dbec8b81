-- ===== src/Query/Clauses/Refusals.antt =====
-- Which expressions `QueryExpression::into_clause` refuses.
use seekwel.Prelude.{
  ◌≡◌, refl, true, false, Option, none, some, List, [], ◌∷◌, Text, codes, arith, Bool-cases, inl,
  inr, &&_split,
}
use seekwel.Errors.{invalid_query, ok, err}
use seekwel.Query.Comparison.{
  ComparisonOperator, ComparisonValue, eq, ne, gt, gte, lt, lte, in_list, is_null, is_not_null,
  single, many, operator_clause, comparison_clause,
}
use seekwel.Query.Expression.{
  QueryExpression, empty, predicate, both, either, combine_clauses, into_clause,
}
use seekwel.Query.Clauses.{supports, all_supported}

module _ {S V : Type 0} where
  operator_clause_renders :
      (operator : ComparisonOperator) (value : ComparisonValue V) (column : Text) (params : List V)
      → supports operator value ≡ true
      → (clause : Text) × (params' : List V) × (operator_clause {S = S} operator value column params
          ≡ (ok clause, params'))
  unfolding operator_clause
  operator_clause_renders eq (single none) column params h = (_, _, refl)
  operator_clause_renders eq (single (some v)) column params h = (_, _, refl)
  operator_clause_renders ne (single none) column params h = (_, _, refl)
  operator_clause_renders ne (single (some v)) column params h = (_, _, refl)
  operator_clause_renders gt (single (some v)) column params h = (_, _, refl)
  operator_clause_renders gte (single (some v)) column params h = (_, _, refl)
  operator_clause_renders lt (single (some v)) column params h = (_, _, refl)
  operator_clause_renders lte (single (some v)) column params h = (_, _, refl)
  operator_clause_renders in_list (many []) column params h = (_, _, refl)
  operator_clause_renders in_list (many (v ∷ vs)) column params h = (_, _, refl)
  operator_clause_renders is_null (single v) column params h = (_, _, refl)
  operator_clause_renders is_not_null (single v) column params h = (_, _, refl)
  operator_clause_renders _ _ column params h = absurd (ground arith)

  operator_clause_refuses :
      (operator : ComparisonOperator) (value : ComparisonValue V) (column : Text) (params : List V)
      → supports operator value ≡ false
      → (message : Text) × (operator_clause {S = S} operator value column params
          ≡ (err (invalid_query message), params))
  unfolding operator_clause
  operator_clause_refuses eq (single v) column params h = absurd (ground arith)
  operator_clause_refuses ne (single v) column params h = absurd (ground arith)
  operator_clause_refuses is_null (single v) column params h = absurd (ground arith)
  operator_clause_refuses is_not_null (single v) column params h = absurd (ground arith)
  operator_clause_refuses in_list (many vs) column params h = absurd (ground arith)
  operator_clause_refuses gt (single (some v)) column params h = absurd (ground arith)
  operator_clause_refuses gte (single (some v)) column params h = absurd (ground arith)
  operator_clause_refuses lt (single (some v)) column params h = absurd (ground arith)
  operator_clause_refuses lte (single (some v)) column params h = absurd (ground arith)
  operator_clause_refuses _ (single none) column params h = (_, refl)
  operator_clause_refuses _ (single (some v)) column params h = (_, refl)
  operator_clause_refuses _ (many vs) column params h = (_, refl)

  into_clause_renders :
      (e : QueryExpression V) (params : List V)
      → all_supported e ≡ true
      → (clause : Option Text) × (params' : List V) × (into_clause {S = S} e params
          ≡ (ok clause, params'))
  unfolding into_clause
  into_clause_renders empty params h = (_, _, refl)
  into_clause_renders (predicate column c) params h =
      let (clause, params', r) = operator_clause_renders c.operator c.value column params h in
      (some clause, params', (unfold comparison_clause in rw r))
  into_clause_renders (both l r) params h =
      let (hl, hr) = &&_split (all_supported l) (all_supported r) h in
      let (a, params', ea) = into_clause_renders l params hl in
      let (b, params'', eb) = into_clause_renders r params' hr in
      (combine_clauses a b (codes "AND"), params'', rw (ea, eb))
  into_clause_renders (either l r) params h =
      let (hl, hr) = &&_split (all_supported l) (all_supported r) h in
      let (a, params', ea) = into_clause_renders l params hl in
      let (b, params'', eb) = into_clause_renders r params' hr in
      (combine_clauses a b (codes "OR"), params'', rw (ea, eb))

  -- An expression with a comparison that its operator does not support is an invalid query.
  pub into_clause_refuses :
      (e : QueryExpression V) (params : List V)
      → all_supported e ≡ false
      → (message : Text) × (params' : List V) × (into_clause {S = S} e params
          ≡ (err (invalid_query message), params'))
  unfolding into_clause
  into_clause_refuses empty params h = absurd (ground arith)
  into_clause_refuses (predicate column c) params h =
      let (message, r) = operator_clause_refuses c.operator c.value column params h in
      (message, params, (unfold comparison_clause in rw r))
  into_clause_refuses (both l r) params h = elim (Bool-cases (all_supported l)) [
    | inl hl ↦
        let (a, params', ea) = into_clause_renders l params hl in
        let (message, params'', eb) = into_clause_refuses r params' (ground arith) in
        (message, params'', rw (ea, eb))
    | inr hl ↦
        let (message, params', ea) = into_clause_refuses l params hl in (message, params', rw ea)
  ]
  into_clause_refuses (either l r) params h = elim (Bool-cases (all_supported l)) [
    | inl hl ↦
        let (a, params', ea) = into_clause_renders l params hl in
        let (message, params'', eb) = into_clause_refuses r params' (ground arith) in
        (message, params'', rw (ea, eb))
    | inr hl ↦
        let (message, params', ea) = into_clause_refuses l params hl in (message, params', rw ea)
  ]
