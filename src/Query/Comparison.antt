-- ===== src/Query/Comparison.antt =====
-- src/model/comparison.rs: one predicate of a query. `V` stands for `rusqlite::types::Value`.
use seekwel.Prelude.{◌+◌, Option, none, some, List, [], ◌∷◌, ◌++◌, Text, codes, join, length}
use seekwel.Errors.{Error, invalid_query, Result, ok, err}
use seekwel.Sql.Render.{placeholder}

pub data ComparisonOperator : Type 0 where
  eq ne gt gte lt lte in_list is_null is_not_null : ComparisonOperator

pub data ComparisonValue (V : Type 0) : Type 0 where
  single : Option V → ComparisonValue V
  many : List V → ComparisonValue V

pub record Comparison (V : Type 0) : Type 0 where
  pub operator : ComparisonOperator
  pub value : ComparisonValue V

unfoldable pub operator_name : ComparisonOperator → Text
operator_name eq = codes "Eq"
operator_name ne = codes "Ne"
operator_name gt = codes "Gt"
operator_name gte = codes "Gte"
operator_name lt = codes "Lt"
operator_name lte = codes "Lte"
operator_name in_list = codes "In"
operator_name is_null = codes "IsNull"
operator_name is_not_null = codes "IsNotNull"

-- The values of an `IN` list that are not `NULL`, as `Comparison::In` keeps them.
unfoldable pub filter_values : {V : Type 0} → List (Option V) → List V
filter_values [] = []
filter_values (none ∷ vs) = filter_values vs
filter_values (some v ∷ vs) = v ∷ filter_values vs

unfoldable pub in_values : {V : Type 0} → List (Option V) → Comparison V
unfolding filter_values
in_values vs = record { operator = in_list; value = many (filter_values vs) }

-- `fn(.., params: &mut Vec<Value>) -> Result<A, Error>`: what is pushed before an error stays.
abbrev pub Rendering : Type 0 → Type 0 → Type 0 → Type 0
Rendering S V A = List V → Result S A × List V

module _ {V : Type 0} where
  unfoldable pub push_placeholder : List V → V → Text × List V
  push_placeholder params value = (placeholder (length params + 1), params ++ (value ∷ []))

  unfoldable pub push_placeholders : List V → List V → List Text × List V
  unfolding push_placeholder
  push_placeholders params [] = ([], params)
  push_placeholders params (v ∷ vs) =
      let (text, params') = push_placeholder params v in
      let (texts, params'') = push_placeholders params' vs in (text ∷ texts, params'')

module _ {S : Type 0} where
  null_error : ComparisonOperator → Error S
  null_error operator =
      invalid_query (operator_name operator ++ codes " comparisons do not support NULL")

  shape_error : ComparisonOperator → Error S
  shape_error operator =
      invalid_query (operator_name operator ++ codes " comparisons do not support this value shape")

  list_error : ComparisonOperator → Error S
  list_error operator =
      invalid_query (operator_name operator ++ codes " comparisons do not support list values here")

module _ {S V : Type 0} where
  unfoldable pub compare_with : Text → Text → V → Rendering S V Text
  unfolding push_placeholder
  compare_with column symbol value params =
      let (text, params') = push_placeholder params value in
      (ok (column ++ (codes " " ++ (symbol ++ (codes " " ++ text)))), params')

  unfoldable pub in_clause : Text → List V → Rendering S V Text
  unfolding push_placeholders
  in_clause column values params =
      let (texts, params') = push_placeholders params values in
      (ok (column ++ (codes " IN (" ++ (join (codes ", ") texts ++ codes ")"))), params')

  -- `PreparedComparison::into_clause`, the match on the operator and the value.
  unfoldable pub operator_clause :
      ComparisonOperator → ComparisonValue V → Text → Rendering S V Text
  unfolding compare_with null_error shape_error list_error in_clause
  operator_clause eq (single (some value)) column params =
      compare_with column (codes "=") value params
  operator_clause eq (single none) column params = (ok (column ++ codes " IS NULL"), params)
  operator_clause is_null (single value) column params = (ok (column ++ codes " IS NULL"), params)
  operator_clause ne (single (some value)) column params =
      compare_with column (codes "!=") value params
  operator_clause ne (single none) column params = (ok (column ++ codes " IS NOT NULL"), params)
  operator_clause is_not_null (single value) column params =
      (ok (column ++ codes " IS NOT NULL"), params)
  operator_clause gt (single (some value)) column params =
      compare_with column (codes ">") value params
  operator_clause gte (single (some value)) column params =
      compare_with column (codes ">=") value params
  operator_clause lt (single (some value)) column params =
      compare_with column (codes "<") value params
  operator_clause lte (single (some value)) column params =
      compare_with column (codes "<=") value params
  operator_clause in_list (many []) column params = (ok (codes "0 = 1"), params)
  operator_clause in_list (many (v ∷ vs)) column params = in_clause column (v ∷ vs) params
  operator_clause operator (single none) column params = (err (null_error operator), params)
  operator_clause operator (single (some value)) column params =
      (err (shape_error operator), params)
  operator_clause operator (many values) column params = (err (list_error operator), params)

  unfoldable pub comparison_clause : Comparison V → Text → Rendering S V Text
  unfolding operator_clause
  comparison_clause c = operator_clause c.operator c.value
