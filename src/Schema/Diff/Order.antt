-- ===== src/Schema/Diff/Order.antt =====
-- The order of the operations and of the blockers.
use seekwel.Prelude.{
  ℕ, List, [], ◌≡◌, refl, sym, ap, subst, ◌∙◌, true, false, Text, ◌==◌, le_total, arith, Bool-cases,
  inl, inr, eq_iff,
}
use mathlib.Core.List.{Perm}
use seekwel.Prelude.Sorting.{sort_by, sort_by-IsSorted, sort_by-perm, IsSorted}
use seekwel.Prelude.Maps.{TreeMap}
use seekwel.Errors.{Result, ok, err, >>=-eq-ok}
use seekwel.Schema.Types.{SchemaDef}
use seekwel.Schema.Normalize.{normalized}
use seekwel.Schema.Plan.{PlanOp, PlanBlocker}
use seekwel.Schema.Diff.Phases.{
  phases, phases_of_IsSorted, names_in_order, names_in_order_of_IsSorted,
}
use seekwel.Schema.Diff.{
  ActualTable, DiffResult, plan_op_sort_key, le_key, le_op, le_blocker, diff_parts, diff,
  actual_schema,
}

==_comm : (a b : Text) → (a == b) ≡ (b == a)
==_comm a b = elim (Bool-cases (a == b)) [
  | inl e ↦ subst (λ c. (a == c) ≡ (c == a)) ((eq_iff a b).0 e) refl
  | inr e ↦ elim (Bool-cases (b == a)) [
    | inl f ↦ subst (λ c. (c == b) ≡ (b == c)) ((eq_iff b a).0 f) refl
    | inr f ↦ e ∙ sym f
  ]
]

le_key-total : (a b : ℕ × Text × Text) → le_key a b ≡ false → le_key b a ≡ true
le_key-total (a, s, x) (b, t, y) h = ground (arith, ==_comm s t, le_total s t, le_total x y)

abbrev result_ops : {S : Type 0} → Result S DiffResult → List PlanOp
result_ops (ok r) = r.ops
result_ops (err e) = []

abbrev result_blockers : {S : Type 0} → Result S DiffResult → List PlanBlocker
result_blockers (ok r) = r.blockers
result_blockers (err e) = []

-- What a difference holds is what the loops gather, sorted.
pub diff_holds :
    {S : Type 0} (target : SchemaDef) (actual : TreeMap ActualTable) (r : DiffResult)
    → diff {S = S} target actual ≡ ok r
    → (sort_by le_op (diff_parts target actual).0 ≡ r.ops)
      × (sort_by le_blocker (diff_parts target actual).1 ≡ r.blockers)
unfolding diff
diff_holds target actual r h =
    let (source, n, e) = >>=-eq-ok (normalized (actual_schema actual)) _ h in
    (ap result_ops e, ap result_blockers e)

-- The operations of a difference come in this order of kinds: dropped indexes, created tables, added
-- columns, rebuilt tables, created indexes, dropped tables. Those of one kind come in the order of
-- their tables, then of their columns or indexes. They and the blockers are those that the loops
-- gather, each as often.
pub diff_in_order :
    {S : Type 0} (target : SchemaDef) (actual : TreeMap ActualTable) (r : DiffResult)
    → diff {S = S} target actual ≡ ok r
    → (phases r.ops ≡ r.ops)
      × IsSorted names_in_order r.ops
      × Perm r.ops (diff_parts target actual).0
      × Perm r.blockers (diff_parts target actual).1
diff_in_order target actual r h =
    let (ops, blockers) = diff_holds target actual r h in
    let sorted =
      subst (IsSorted le_op) ops (
        sort_by-IsSorted le_op (λ a b. le_key-total (plan_op_sort_key a) (plan_op_sort_key b)) _) in
    (
      phases_of_IsSorted r.ops sorted,
      names_in_order_of_IsSorted r.ops sorted,
      subst (λ l. Perm l (diff_parts target actual).0) ops (sort_by-perm le_op _),
      subst (λ l. Perm l (diff_parts target actual).1) blockers (sort_by-perm le_blocker _),
    )
