-- ===== src/Query/Clauses.antt =====
-- What `QueryExpression::into_clause` renders and binds: one comparison.
pub mod Whole
pub mod Refusals
use seekwel.Prelude.{
  ℕ, zero, suc, ◌+◌, ◌≡◌, refl, sym, ap, ◌∙◌, Bool, true, false, ◌&&◌, Option, none, some, List, [],
  ◌∷◌, ◌++◌, Text, codes, join, length, length-append, append-nil, append_assoc, arith, Bool-cases,
  inl, inr, ◌⊎◌, if◌then◌else◌, &&_split,
}
use seekwel.Errors.{Error, invalid_query, Result, ok, err}
use seekwel.Sql.Render.{placeholder, placeholder_list}
use seekwel.Sql.Placeholders.{
  bound_parameters, Reads, Reads-bound_parameters, Reads-plain, Reads-of_Lacks, Reads-append,
  Reads-placeholder, Reads-suffix, numbers_from-append, numbers_from, is_digit,
}
use seekwel.Sql.Placeholders.Statements.{IsPlain, join-Reads, placeholder_list-OneEach}
use seekwel.Query.Comparison.{
  Comparison, ComparisonOperator, ComparisonValue, eq, ne, gt, gte, lt, lte, in_list, is_null,
  is_not_null, single, many, Rendering, push_placeholders, push_placeholder, compare_with,
  in_clause, operator_clause, comparison_clause,
}
use seekwel.Query.Expression.{
  QueryExpression, empty, predicate, both, either, combine_clauses, into_clause,
}

module _ {V : Type 0} where
  -- The operators that take the shape of the value.
  abbrev pub supports : ComparisonOperator → ComparisonValue V → Bool
  supports eq (single v) = true
  supports ne (single v) = true
  supports is_null (single v) = true
  supports is_not_null (single v) = true
  supports in_list (many vs) = true
  supports gt (single (some v)) = true
  supports gte (single (some v)) = true
  supports lt (single (some v)) = true
  supports lte (single (some v)) = true
  supports _ _ = false

  -- The values that a comparison binds.
  abbrev pub operator_values : ComparisonOperator → ComparisonValue V → List V
  operator_values is_null value = []
  operator_values is_not_null value = []
  operator_values operator (single none) = []
  operator_values operator (single (some v)) = v ∷ []
  operator_values operator (many vs) = vs

  -- The values that an expression binds, from left to right.
  abbrev pub operands : QueryExpression V → List V
  operands empty = []
  operands (predicate column c) = operator_values c.operator c.value
  operands (both l r) = operands l ++ operands r
  operands (either l r) = operands l ++ operands r

  abbrev pub all_supported : QueryExpression V → Bool
  all_supported empty = true
  all_supported (predicate column c) = supports c.operator c.value
  all_supported (both l r) = all_supported l && all_supported r
  all_supported (either l r) = all_supported l && all_supported r

  -- No column name has a question mark.
  abbrev pub HasPlainColumns : QueryExpression V → Type 0
  HasPlainColumns empty = Unit
  HasPlainColumns (predicate column c) = IsPlain column
  HasPlainColumns (both l r) = HasPlainColumns l × HasPlainColumns r
  HasPlainColumns (either l r) = HasPlainColumns l × HasPlainColumns r

  push_placeholders_lem :
      (params vs : List V)
      → push_placeholders params vs
        ≡ (placeholder_list (length vs) (length params + 1), params ++ vs)
  unfolding push_placeholders placeholder_list
  push_placeholders_lem params [] =
      ap (λ (l : List V). let t : List Text × List V = ([], l) in t) (sym (append-nil params))
  push_placeholders_lem params (v ∷ vs) = rw (
    push_placeholders_lem (params ++ (v ∷ [])) vs,
    length-append params (v ∷ []),
    append_assoc params (v ∷ []) vs,
  )

module _ {S V : Type 0} where
  -- A rendering that is read back as the parameters that it bound.
  abbrev pub Binds : Rendering S V Text → List V → Type 0
  Binds m vs =
      (params : List V)
      → (clause : Text) × (m params ≡ (ok clause, params ++ vs))
        × Reads clause (numbers_from (length vs) (length params + 1))

  plain-Binds :
      (column suffix : Text)
      → IsPlain column
      → IsPlain suffix
      → Binds (λ params. (ok (column ++ suffix), params)) []
  plain-Binds column suffix c s params = (
    column ++ suffix,
    ap (λ l. (ok (column ++ suffix), l)) (sym (append-nil params)),
    Reads-plain column suffix [] c (Reads-of_Lacks suffix s),
  )

  compare_with-Binds :
      (column symbol : Text) (v : V)
      → IsPlain column
      → IsPlain symbol
      → Binds (compare_with column symbol v) (v ∷ [])
  unfolding compare_with
  compare_with-Binds column symbol v c s params =
      let p = placeholder (length params + 1) in
      let l : List ℕ = (length params + 1) ∷ [] in
      (
        column ++ (codes " " ++ (symbol ++ (codes " " ++ p))),
        refl,
        Reads-plain column (codes " " ++ (symbol ++ (codes " " ++ p))) l c (
            Reads-plain (codes " ") (symbol ++ (codes " " ++ p)) l (omega arith) (
              Reads-plain symbol (codes " " ++ p) l s (
                Reads-plain (codes " ") p l (omega arith)
                  (Reads-placeholder (length params + 1))))),
      )

  in_clause-Binds : (column : Text) (vs : List V) → IsPlain column → Binds (in_clause column vs) vs
  unfolding in_clause
  in_clause-Binds column vs c params =
      let texts = placeholder_list (length vs) (length params + 1) in
      let l = numbers_from (length vs) (length params + 1) in
      (
        column ++ (codes " IN (" ++ (join (codes ", ") texts ++ codes ")")),
        rw (push_placeholders_lem params vs),
        Reads-plain column (codes " IN (" ++ (join (codes ", ") texts ++ codes ")")) l c (
            Reads-plain (codes " IN (") (join (codes ", ") texts ++ codes ")") l (omega arith) (
              Reads-suffix (join (codes ", ") texts) b')' [] l (unfold is_digit in refl)
                (omega arith)
                (join-Reads texts l (placeholder_list-OneEach (length vs) (length params + 1))))),
      )

  pub operator_clause-Binds :
      (operator : ComparisonOperator) (value : ComparisonValue V) (column : Text)
      → supports operator value ≡ true
      → IsPlain column
      → Binds (operator_clause operator value column) (operator_values operator value)
  unfolding operator_clause
  operator_clause-Binds eq (single none) column h c =
      plain-Binds column (codes " IS NULL") c (omega arith)
  operator_clause-Binds eq (single (some v)) column h c =
      compare_with-Binds column (codes "=") v c (omega arith)
  operator_clause-Binds ne (single none) column h c =
      plain-Binds column (codes " IS NOT NULL") c (omega arith)
  operator_clause-Binds ne (single (some v)) column h c =
      compare_with-Binds column (codes "!=") v c (omega arith)
  operator_clause-Binds gt (single (some v)) column h c =
      compare_with-Binds column (codes ">") v c (omega arith)
  operator_clause-Binds gte (single (some v)) column h c =
      compare_with-Binds column (codes ">=") v c (omega arith)
  operator_clause-Binds lt (single (some v)) column h c =
      compare_with-Binds column (codes "<") v c (omega arith)
  operator_clause-Binds lte (single (some v)) column h c =
      compare_with-Binds column (codes "<=") v c (omega arith)
  operator_clause-Binds in_list (many []) column h c =
      plain-Binds (codes "0 = 1") [] (omega arith) tt
  operator_clause-Binds in_list (many (v ∷ vs)) column h c = in_clause-Binds column (v ∷ vs) c
  operator_clause-Binds is_null (single v) column h c =
      plain-Binds column (codes " IS NULL") c (omega arith)
  operator_clause-Binds is_not_null (single v) column h c =
      plain-Binds column (codes " IS NOT NULL") c (omega arith)
  operator_clause-Binds _ _ column h c = absurd (ground arith)
