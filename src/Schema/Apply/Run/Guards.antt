-- ===== src/Schema/Apply/Run/Guards.antt =====
-- What stands before the first write of `apply`.
use seekwel.Prelude.{
  ◌≡◌, ◌≢◌, refl, sym, subst, ap, ◌⊎◌, inl, inr, Bool, true, false, not, Option, none, some, List,
  [], ◌∷◌, is_empty, any, eq_iff, ◌==◌, ◌&&◌, if◌then◌else◌,
}
use seekwel.Prelude.Maps.{TreeMap}
use seekwel.Errors.{Error, Result, ok, err}
use seekwel.Connection.Transaction.{World}
use seekwel.Connection.Act.{Sqlite, Act, then_of, ◌>>=◌, lift}
use seekwel.Connection.Act.Reading.{kept}
use seekwel.Connection.Access.{exclusive_cases}
use seekwel.Schema.Fingerprint.{fingerprint}
use seekwel.Schema.Plan.{ApplyMode, safe_only, allow_destructive, Plan, PlanOp, op_is_destructive}
use seekwel.Schema.Plan.Equality.{ops_discrete}
use seekwel.Schema.Diff.{ActualTable, DiffResult, diff}
use seekwel.Schema.Introspect.Tables.{introspect_managed}
use seekwel.Schema.Introspect.Reading.{introspect_managed-ReadsOnly}
use seekwel.Schema.Scope.{plan_scope}
use seekwel.Schema.Apply.Run.{same_ops, is_safe_only, refusal, writes, admitted, apply}

-- The plan still fits the difference that the live database has, and the mode lets it run.
pub record IsCurrent (plan : Plan) (mode : ApplyMode) (current : DiffResult) : Type 0 where
  pub source : fingerprint current.source ≡ plan.source_fingerprint
  pub ops : current.ops ≡ plan.ops
  pub free : current.blockers ≡ []
  pub allowed : (mode ≡ allow_destructive) ⊎ (any op_is_destructive plan.ops ≡ false)

same_ops-eq : (a b : List PlanOp) → same_ops a b ≡ true → a ≡ b
unfolding same_ops
same_ops-eq a b h =
    elim (ops_discrete a b) as (λ d. elim d [ yes e ↦ true | no e ↦ false ] ≡ true → a ≡ b) [
      | yes e ↦ λ k. e
      | no e ↦ λ k. cc
    ]
      h

is_empty-nil : {A : Type 0} (xs : List A) → is_empty xs ≡ true → xs ≡ []
is_empty-nil [] h = refl
is_empty-nil (x ∷ xs) h = cc

allowed_lem :
    (mode : ApplyMode) (test : Bool)
    → (is_safe_only mode && test) ≡ false
    → (mode ≡ allow_destructive) ⊎ (test ≡ false)
unfolding is_safe_only
allowed_lem safe_only test h = inr h
allowed_lem allow_destructive test h = inl refl

if-some :
    {A : Type 0} (test : Bool) (a : A) (rest : Option A)
    → (if not test then some a else rest) ≡ none
    → (test ≡ true) × (rest ≡ none)
if-some true a rest h = (refl, h)
if-some false a rest h = cc

if-none : {A : Type 0} (test : Bool) (a : A) → (if test then some a else none) ≡ none → test ≡ false
if-none true a h = cc
if-none false a h = refl

refusal-IsCurrent :
    {S : Type 0} (plan : Plan) (mode : ApplyMode) (current : DiffResult)
    → refusal {S = S} plan mode current ≡ none
    → IsCurrent plan mode current
unfolding refusal
refusal-IsCurrent plan mode current h =
    let (same, h1) = if-some (fingerprint current.source == plan.source_fingerprint) _ _ h in
    let (ops, h2) = if-some (same_ops current.ops plan.ops) _ _ h1 in
    let (free, h3) = if-some (is_empty current.blockers) _ _ h2 in
    let ops_eq = same_ops-eq current.ops plan.ops ops in
    record {
      source = (eq_iff (fingerprint current.source) plan.source_fingerprint).0 same;
      ops = ops_eq;
      free = is_empty-nil current.blockers free;
      allowed = rw (sym ops_eq) (
          allowed_lem mode (any op_is_destructive current.ops)
            (if-none (is_safe_only mode && any op_is_destructive current.ops) _ h3));
    }

-- What `apply` found before it wrote.
pub record Passed {S R Row D : Type 0} (sqlite : Sqlite S R Row D) (plan : Plan) (mode : ApplyMode)
    (w : World D) : Type 0 where
  pub actual : TreeMap ActualTable
  pub current : DiffResult
  pub outside : w.state ≡ none
  pub read : (introspect_managed sqlite (plan_scope plan) w).0 ≡ some (ok actual)
  pub difference : diff {S = S} plan.target actual ≡ ok current
  pub fits : IsCurrent plan mode current

module _ {S R Row D : Type 0} (sqlite : Sqlite S R Row D) (plan : Plan) (mode : ApplyMode) where
  unfoldable pub Safe : World D → Option (Result S (Unit {0})) × World D → Type 0
  Safe w r =
      ((r.1.db ≡ w.db) × (r.0 ≢ some (ok tt)))
      ⊎ ((passed : Passed sqlite plan mode w) × (w' : World D) × (w'.db ≡ w.db)
          × (r ≡ writes sqlite plan passed.actual passed.current w'))

  guarded-Safe :
      (w w' : World D) (actual : TreeMap ActualTable) (current : DiffResult) (o : Option (Error S))
      → w'.db ≡ w.db
      → w.state ≡ none
      → (introspect_managed sqlite (plan_scope plan) w).0 ≡ some (ok actual)
      → diff {S = S} plan.target actual ≡ ok current
      → refusal {S = S} plan mode current ≡ o
      → Safe w (admitted sqlite plan actual current o w')
  unfolding Safe admitted lift
  guarded-Safe w w' actual current (some e) db out read difference passed = inl (db, λ h. cc)
  guarded-Safe w w' actual current none db out read difference passed =
      let p : Passed sqlite plan mode w = record {
        actual = actual;
        current = current;
        outside = out;
        read = read;
        difference = difference;
        fits = refusal-IsCurrent plan mode current passed;
      } in
      inr (p, w', db, refl)

  after_diff : TreeMap ActualTable → DiffResult → Act S D (Unit {0})
  after_diff actual current = admitted sqlite plan actual current (refusal plan mode current)

  compared-Safe :
      (w w' : World D) (actual : TreeMap ActualTable) (d : Result S DiffResult)
      → w'.db ≡ w.db
      → w.state ≡ none
      → (introspect_managed sqlite (plan_scope plan) w).0 ≡ some (ok actual)
      → diff plan.target actual ≡ d
      → Safe w (then_of (after_diff actual) (some d, w'))
  unfolding Safe after_diff
  compared-Safe w w' actual (err e) db out read difference = inl (db, λ h. cc)
  compared-Safe w w' actual (ok current) db out read difference =
      guarded-Safe w w' actual current (refusal plan mode current) db out read difference refl

  after_read : TreeMap ActualTable → Act S D (Unit {0})
  after_read actual = lift (diff plan.target actual) >>= after_diff actual

  read-Safe :
      (w : World D) (r : Option (Result S (TreeMap ActualTable)) × World D)
      → introspect_managed sqlite (plan_scope plan) w ≡ r
      → r.1.db ≡ w.db
      → w.state ≡ none
      → Safe w (then_of after_read r)
  unfolding Safe after_read ◌>>=◌ lift
  read-Safe w (none, w') e db out = inl (db, λ h. cc)
  read-Safe w (some (err x), w') e db out = inl (db, λ h. cc)
  read-Safe w (some (ok actual), w') e db out =
      compared-Safe w w' actual (diff plan.target actual) db out (ap (λ x. x.0) e) refl

  outside-Safe :
      (w : World D)
      → w.state ≡ none
      → Safe w ((introspect_managed sqlite (plan_scope plan) >>= after_read) w)
  unfolding ◌>>=◌
  outside-Safe w out =
      read-Safe w (introspect_managed sqlite (plan_scope plan) w) refl
        (ap (λ (v : World D). v.db)
          (kept (introspect_managed-ReadsOnly sqlite (plan_scope plan)) w))
        out

  pub apply_cases : (w : World D) → Safe w (apply sqlite plan mode w)
  unfolding apply Safe after_read after_diff
  apply_cases w =
      let body = introspect_managed sqlite (plan_scope plan) >>= after_read in
      elim (exclusive_cases body w) [
        | inl (same, fails) ↦ inl (ap (λ (v : World D). v.db) same, fails tt)
        | inr (outside, runs) ↦ subst (Safe w) (sym runs) (outside-Safe w outside)
      ]

  -- Applying a plan writes nothing, or it found outside a transaction that the live schema has the
  -- plan's source fingerprint and gives the plan's operations and no blocker, and that the mode
  -- allows destructive operations or the plan has none.
  pub apply_guards :
      (w : World D) → ((apply sqlite plan mode w).1.db ≡ w.db) ⊎ Passed sqlite plan mode w
  unfolding Safe
  apply_guards w = elim (apply_cases w) [
    | inl (same, fails) ↦ inl same
    | inr (passed, w', db, runs) ↦ inr passed
  ]
