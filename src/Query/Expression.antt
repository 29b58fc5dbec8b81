-- ===== src/Query/Expression.antt =====
-- src/model/query/expression.rs: the `WHERE` clause of a query.
use seekwel.Prelude.{Option, none, some, ◌++◌, Text, codes}
use seekwel.Errors.{Result, ok, err}
use seekwel.Query.Comparison.{Comparison, Rendering, comparison_clause}

pub data QueryExpression (V : Type 0) : Type 0 where
  empty : QueryExpression V
  predicate : Text → Comparison V → QueryExpression V
  both : QueryExpression V → QueryExpression V → QueryExpression V
  either : QueryExpression V → QueryExpression V → QueryExpression V

unfoldable pub combine_clauses : Option Text → Option Text → Text → Option Text
combine_clauses none none operator = none
combine_clauses (some clause) none operator = some clause
combine_clauses none (some clause) operator = some clause
combine_clauses (some left) (some right) operator =
    some (codes "(" ++ (left ++ (codes ") " ++ (operator ++ (codes " (" ++ (right ++ codes ")"))))))

-- `?` and a sequence of calls over the same parameters.
abbrev continue : {S V A B : Type 0} → Result S A → (A → Rendering S V B) → Rendering S V B
continue (ok a) f params = f a params
continue (err e) f params = (err e, params)

infixl 5 ◌>>=◌
abbrev ◌>>=◌ : {S V A B : Type 0} → Rendering S V A → (A → Rendering S V B) → Rendering S V B
◌>>=◌ m f params = let (r, params') = m params in continue r f params'

abbrev pure : {S V A : Type 0} → A → Rendering S V A
pure a params = (ok a, params)

module _ {S V : Type 0} where
  unfoldable pub into_clause : QueryExpression V → Rendering S V (Option Text)
  into_clause empty = pure none
  into_clause (predicate column comparison) = do
    clause ← comparison_clause comparison column
    pure (some clause)
  into_clause (both left right) = do
    l ← into_clause left
    r ← into_clause right
    pure (combine_clauses l r (codes "AND"))
  into_clause (either left right) = do
    l ← into_clause left
    r ← into_clause right
    pure (combine_clauses l r (codes "OR"))
