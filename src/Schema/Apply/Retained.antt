-- ===== src/Schema/Apply/Retained.antt =====
-- What the copy of a rebuilt table carries over.
use seekwel.Prelude.{
  ◌≡◌, ◌∙◌, sym, subst, true, List, [], ◌∷◌, Text, ◌==◌, eq_iff, any, ◌↔◌, ◌⊎◌, inl, inr,
  Bool-cases, arith,
}
use seekwel.Schema.Types.{ColumnDef, TableDef}
use seekwel.Schema.Names.{Any}
use seekwel.Schema.Apply.{shared_columns, retained_columns}

-- A table has a column of this name.
abbrev pub HasColumn : Text → List ColumnDef → Type 0
HasColumn name = Any (λ (c : ColumnDef). c.name ≡ name)

any-HasColumn :
    (name : Text) (cs : List ColumnDef)
    → (any (λ (c : ColumnDef). c.name == name) cs ≡ true) ↔ HasColumn name cs
any-HasColumn name [] = ground arith
any-HasColumn name (c ∷ cs) = ground (arith, any-HasColumn name cs, eq_iff c.name name)

-- The pair with these names in the live table and in the desired one.
abbrev pub Carries : Text → Text → Text × Text → Type 0
Carries source destination p = (p.0 ≡ source) × (p.1 ≡ destination)

shared_columns_iff :
    (a b : Text) (cs : List ColumnDef) (to : TableDef)
    → Any (Carries a b) (shared_columns cs to) ↔ ((a ≡ b) × HasColumn a cs × HasColumn a to.columns)
unfolding shared_columns
shared_columns_iff a b [] to = (λ r. absurd r, λ r. absurd r.1)
shared_columns_iff a b (c ∷ cs) to =
    let rest = shared_columns_iff a b cs to in
    let known = any-HasColumn c.name to.columns in
    elim (Bool-cases (any (λ (d : ColumnDef). d.name == c.name) to.columns)) [
      | inl kept ↦ rw kept (
        λ r. elim r [
          | inl e ↦ (sym e.0 ∙ e.1, inl e.0, subst (λ n. HasColumn n to.columns) e.0 (known.0 kept))
          | inr x ↦ let k = rest.0 x in (k.0, inr k.1, k.2)
        ],
        λ r. elim r.1 [ inl e ↦ inl (e, e ∙ r.0) | inr x ↦ inr (rest.1 (r.0, x, r.2)) ],
      )
      | inr gone ↦ rw gone (
        λ x. let k = rest.0 x in (k.0, inr k.1, k.2),
        λ r. elim r.1 [
          | inl e ↦ absurd (
              let there = known.1 (subst (λ n. HasColumn n to.columns) (sym e) r.2) in ground arith)
          | inr x ↦ rest.1 (r.0, x, r.2)
        ],
      )
    ]

-- The copy of a rebuilt table has a pair of names, the one in the live table before the one in the
-- desired table, exactly if these are the names of their primary keys, or both are the name of a
-- column that both tables have.
pub retained_columns_iff :
    (from to : TableDef) (a b : Text)
    → Any (Carries a b) (retained_columns from to) ↔ (
        Carries a b (from.primary_key.name, to.primary_key.name)
        ⊎ ((a ≡ b) × HasColumn a from.columns × HasColumn a to.columns))
unfolding retained_columns
retained_columns_iff from to a b =
    let shared = shared_columns_iff a b from.columns to in
    (
      λ r. elim r [ inl e ↦ inl e | inr x ↦ inr (shared.0 x) ],
      λ r. elim r [ inl e ↦ inl e | inr x ↦ inr (shared.1 x) ],
    )
