-- ===== src/Query/Clauses/Whole.antt =====
-- What `QueryExpression::into_clause` renders and binds for a whole expression, and when it refuses.
use seekwel.Prelude.{
  ℕ, ◌+◌, ◌≡◌, refl, sym, ap, ◌∙◌, true, Option, none, some, List, [], ◌∷◌, ◌++◌, Text, codes,
  length, length-append, append-nil, append_assoc, arith, &&_split, subst,
}
use seekwel.Errors.{ok}
use seekwel.Sql.Placeholders.{
  bound_parameters, Reads, Reads-bound_parameters, Reads-plain, Reads-append, Reads-suffix,
  numbers_from, numbers_from-append, is_digit,
}
use seekwel.Sql.Placeholders.Statements.{IsPlain}
use seekwel.Query.Comparison.{Rendering, comparison_clause}
use seekwel.Query.Expression.{
  QueryExpression, empty, predicate, both, either, combine_clauses, into_clause,
}
use seekwel.Query.Clauses.{operands, all_supported, HasPlainColumns, operator_clause-Binds}

-- The clause of a query, which may be missing, is read as these parameters.
abbrev pub ReadsClause : Option Text → List ℕ → Type 0
ReadsClause none l = l ≡ []
ReadsClause (some t) l = Reads t l

-- The parameters of a clause that may be missing.
abbrev pub clause_parameters : Option Text → List ℕ
clause_parameters none = []
clause_parameters (some t) = bound_parameters t

ReadsClause-clause_parameters :
    (clause : Option Text) (l : List ℕ) → ReadsClause clause l → clause_parameters clause ≡ l
ReadsClause-clause_parameters none l h = sym h
ReadsClause-clause_parameters (some t) l h = Reads-bound_parameters t l h

combine_clauses-ReadsClause :
    (l r : Option Text) (operator : Text) (m n : List ℕ)
    → IsPlain operator
    → ReadsClause l m
    → ReadsClause r n
    → ReadsClause (combine_clauses l r operator) (m ++ n)
unfolding combine_clauses
combine_clauses-ReadsClause none none operator m n o h k = rw h k
combine_clauses-ReadsClause (some t) none operator m n o h k = rw k (rw (append-nil m) h)
combine_clauses-ReadsClause none (some t) operator m n o h k = rw h k
combine_clauses-ReadsClause (some t) (some u) operator m n o h k =
    let close = u ++ codes ")" in
    let opened = operator ++ (codes " (" ++ close) in
    Reads-plain (codes "(") (t ++ (codes ") " ++ opened)) (m ++ n) (omega arith) (
      Reads-append t b')' (32 ∷ opened) m n (unfold is_digit in refl) h (
        Reads-plain (codes ") ") opened n (omega arith) (
          Reads-plain operator (codes " (" ++ close) n o (
            Reads-plain (codes " (") close n (omega arith)
              (Reads-suffix u b')' [] n (unfold is_digit in refl) (omega arith) k)))))

-- The numbers of two groups of parameters, one bound after the other.
numbers_of_both :
    {V : Type 0} (params vs ws : List V)
    → numbers_from (length vs) (length params + 1)
        ++ numbers_from (length ws) (length (params ++ vs) + 1)
      ≡ numbers_from (length (vs ++ ws)) (length params + 1)
numbers_of_both params vs ws =
    ap (λ k. numbers_from (length vs) (length params + 1) ++ numbers_from (length ws) k)
      (let e : length (params ++ vs) + 1 ≡ length params + 1 + length vs =
          omega (arith, length-append params vs) in
        e)
    ∙ numbers_from-append (length vs) (length ws) (length params + 1)
    ∙ ap (λ k. numbers_from k (length params + 1)) (sym (length-append vs ws))

module _ {S V : Type 0} where
  -- A rendering that binds `vs` after what is bound already, and whose clause is read as those.
  abbrev BindsClause : Rendering S V (Option Text) → List V → Type 0
  BindsClause m vs =
      (params : List V)
      → (clause : Option Text) × (m params ≡ (ok clause, params ++ vs))
        × ReadsClause clause (numbers_from (length vs) (length params + 1))

  into_clause-BindsClause :
      (e : QueryExpression V)
      → all_supported e ≡ true
      → HasPlainColumns e
      → BindsClause (into_clause e) (operands e)
  unfolding into_clause
  into_clause-BindsClause empty h p params =
      (none, ap (λ l. (ok none, l)) (sym (append-nil params)), refl)
  into_clause-BindsClause (predicate column c) h p params =
      let (clause, e, r) = operator_clause-Binds {S = S} c.operator c.value column h p params in
      (some clause, (unfold comparison_clause in rw e), r)
  into_clause-BindsClause (both l r) h p params =
      let (hl, hr) = &&_split (all_supported l) (all_supported r) h in
      let (a, ea, ra) = into_clause-BindsClause l hl p.0 params in
      let (b, eb, rb) = into_clause-BindsClause r hr p.1 (params ++ operands l) in
      (
        combine_clauses a b (codes "AND"),
        rw (ea, eb) (rw (append_assoc params (operands l) (operands r))),
        subst (ReadsClause (combine_clauses a b (codes "AND")))
            (numbers_of_both params (operands l) (operands r))
            (combine_clauses-ReadsClause a b (codes "AND") _ _ (omega arith) ra rb),
      )
  into_clause-BindsClause (either l r) h p params =
      let (hl, hr) = &&_split (all_supported l) (all_supported r) h in
      let (a, ea, ra) = into_clause-BindsClause l hl p.0 params in
      let (b, eb, rb) = into_clause-BindsClause r hr p.1 (params ++ operands l) in
      (
        combine_clauses a b (codes "OR"),
        rw (ea, eb) (rw (append_assoc params (operands l) (operands r))),
        subst (ReadsClause (combine_clauses a b (codes "OR")))
            (numbers_of_both params (operands l) (operands r))
            (combine_clauses-ReadsClause a b (codes "OR") _ _ (omega arith) ra rb),
      )

  -- A supported expression over plain column names renders. It binds its operands behind what is
  -- bound already, and its clause asks for exactly those parameters, from left to right.
  pub into_clause_binds :
      (e : QueryExpression V) (params : List V)
      → all_supported e ≡ true
      → HasPlainColumns e
      → (clause : Option Text) × (into_clause {S = S} e params ≡ (ok clause, params ++ operands e))
        × (clause_parameters clause ≡ numbers_from (length (operands e)) (length params + 1))
  into_clause_binds e params h p =
      let (clause, r, k) = into_clause-BindsClause e h p params in
      (clause, r, ReadsClause-clause_parameters clause _ k)
