-- ===== src/Schema/Apply/Run/Atomic.antt =====
-- `apply` as a whole is atomic.
use seekwel.Prelude.{
  ◌≡◌, ◌≢◌, refl, sym, ap, subst, ◌∙◌, ◌⊎◌, inl, inr, Option, none, some, List, [], ◌∷◌, Text,
  codes, All,
}
use seekwel.Prelude.Maps.{TreeMap}
use seekwel.Connection.Value.{Value}
use seekwel.Errors.{Result, ok, err}
use seekwel.Connection.Transaction.{World}
use seekwel.Connection.Act.{Sqlite, Act, then_of, ◌>>=◌, lift, run_batch, run_execute}
use seekwel.Connection.Act.Reading.{ReadsOnly, kept, lift-ReadsOnly, query_row-ReadsOnly, reading}
use seekwel.Schema.Plan.{ApplyMode, Plan, PlanOp}
use seekwel.Schema.Diff.{ActualTable, DiffResult}
use seekwel.Schema.Introspect.Tables.{introspect_managed}
use seekwel.Schema.Scope.{plan_scope}
use seekwel.Schema.History.{ensure_sql, insert_sql, ensure_history_table, record_success}
use seekwel.Schema.Apply.Run.{
  op_statements, run_all, run_ops, check_integrity, apply_body, immediate_transaction, writes,
  apply,
}
use seekwel.Schema.Apply.Run.Guards.{Passed, Safe, apply_cases}
use seekwel.Schema.Apply.Run.Rollback.{
  Transactions, StaysInside, stays_inside, stays, AllOrNothing, immediate_transaction-AllOrNothing,
}

module _ {S R Row D C : Type 0} (sqlite : Sqlite S R Row D)
    (transactions : Transactions sqlite C) where
  open transactions use {saved, content, Inside}

  abbrev Stays : {A : Type 0} → Act S D A → Type 0
  Stays m = StaysInside sqlite transactions m

  ReadsOnly-Stays : {A : Type 0} {m : Act S D A} → ReadsOnly m → Stays m
  ReadsOnly-Stays {m = m} h = stays_inside λ w c k. ap (λ (v : World D). saved v.db) (kept h w) ∙ k

  then_of-saved :
      {A B : Type 0} (next : A → Act S D B) (c : C) (r : Option (Result S A) × World D)
      → ((a : A) → Stays (next a))
      → saved r.1.db ≡ some c
      → saved (then_of next r).1.db ≡ some c
  then_of-saved next c (some (ok a), w) h k = stays sqlite transactions (h a) w c k
  then_of-saved next c (some (err e), w) h k = k
  then_of-saved next c (none, w) h k = k

  bind-Stays :
      {A B : Type 0} {m : Act S D A} {next : A → Act S D B}
      → Stays m
      → ((a : A) → Stays (next a))
      → Stays (m >>= next)
  unfolding ◌>>=◌
  bind-Stays {m = m} {next = next} h k =
      stays_inside λ w c e. then_of-saved next c (m w) k (stays sqlite transactions h w c e)

  batch-Stays : (sql : Text) → Inside sql → Stays (run_batch sqlite sql)
  unfolding run_batch
  batch-Stays sql h = stays_inside λ w c k. transactions.inside_batch sql w.db c h k

  execute-Stays :
      (sql : Text) (params : List (Value R)) → Inside sql → Stays (run_execute sqlite sql params)
  unfolding run_execute
  execute-Stays sql params h =
      stays_inside λ w c k. transactions.inside_execute sql params w.db c h k

  run_all-Stays :
      (statements : List Text) → All Inside statements → Stays (run_all sqlite statements)
  unfolding run_all
  run_all-Stays [] h = ReadsOnly-Stays (lift-ReadsOnly _)
  run_all-Stays (sql ∷ rest) h = bind-Stays (batch-Stays sql h.0) (λ _. run_all-Stays rest h.1)

  -- None of the statements that an operation runs begins or ends a transaction.
  abbrev AllInside : Result S (List Text) → Type 0
  AllInside (ok statements) = All Inside statements
  AllInside (err e) = Unit

  unfoldable pub OpInside : TreeMap ActualTable → PlanOp → Type 0
  OpInside actual op = AllInside (op_statements actual op)

  run_of-Stays : (r : Result S (List Text)) → AllInside r → Stays (lift r >>= run_all sqlite)
  unfolding ◌>>=◌ run_all lift
  run_of-Stays (ok statements) h =
      stays_inside λ w c k. stays sqlite transactions (run_all-Stays statements h) w c k
  run_of-Stays (err e) h = stays_inside λ w c k. k

  run_ops-Stays :
      (actual : TreeMap ActualTable) (ops : List PlanOp)
      → All (OpInside actual) ops
      → Stays (run_ops sqlite actual ops)
  unfolding run_ops OpInside
  run_ops-Stays actual [] h = ReadsOnly-Stays (lift-ReadsOnly _)
  run_ops-Stays actual (op ∷ ops) h =
      bind-Stays (run_of-Stays (op_statements actual op) h.0) (λ _. run_ops-Stays actual ops h.1)

  -- The statements of the history are inside a transaction, and PRAGMA optimize changes no content.
  pub record Housekeeping : Type 0 where
    pub ensure : Inside ensure_sql
    pub insert : Inside insert_sql
    pub optimize :
        (d : D) → content (sqlite.execute_batch (codes "PRAGMA optimize") d).1 ≡ content d

  module _ (housekeeping : Housekeeping) where
    check_integrity-ReadsOnly : ReadsOnly (check_integrity sqlite)
    unfolding check_integrity
    check_integrity-ReadsOnly = search (reading, query_row-ReadsOnly)

    apply_body-Stays :
        (plan : Plan) (actual : TreeMap ActualTable) (current : DiffResult)
        → All (OpInside actual) current.ops
        → Stays (apply_body sqlite plan actual current)
    unfolding apply_body ensure_history_table record_success
    apply_body-Stays plan actual current h =
        bind-Stays (batch-Stays ensure_sql housekeeping.ensure) λ _.
          bind-Stays (run_ops-Stays actual current.ops h) λ _.
            bind-Stays (ReadsOnly-Stays check_integrity-ReadsOnly) λ _.
              bind-Stays (batch-Stays ensure_sql housekeeping.ensure) λ _.
                bind-Stays (execute-Stays insert_sql _ housekeeping.insert)
                  λ _. ReadsOnly-Stays (lift-ReadsOnly _)

    -- The body that `apply` runs for what it found, from some world with the same content, ran to
    -- its end, and the content is what it left.
    pub record Applied (plan : Plan) (mode : ApplyMode) (w w' : World D) : Type 0 where
      pub passed : Passed sqlite plan mode w
      pub started : World D
      pub same : content started.db ≡ content w.db
      pub finished : (apply_body sqlite plan passed.actual passed.current started).0 ≡ some (ok tt)
      pub result :
          content w'.db ≡ content (apply_body sqlite plan passed.actual passed.current started).1.db

    pub Atomic : Plan → ApplyMode → World D → Option (Result S (Unit {0})) × World D → Type 0
    Atomic plan mode w r =
        ((content r.1.db ≡ content w.db) × (r.0 ≢ some (ok tt))) ⊎ Applied plan mode w r.1

    optimized_lem :
        (plan : Plan) (mode : ApplyMode) (w w' : World D) (passed : Passed sqlite plan mode w)
        (q : Option (Result S (Unit {0})) × World D)
        → content w'.db ≡ content w.db
        → AllOrNothing sqlite transactions
            (apply_body sqlite plan passed.actual passed.current)
            w'
            q
        → Atomic plan mode w (then_of (λ _. run_batch sqlite (codes "PRAGMA optimize")) q)
    unfolding Atomic AllOrNothing run_batch
    optimized_lem plan mode w w' passed (none, v) db (inl (same, fails)) = inl (same ∙ db, λ h. cc)
    optimized_lem plan mode w w' passed (some (err e), v) db (inl (same, fails)) =
        inl (same ∙ db, λ h. cc)
    optimized_lem plan mode w w' passed (some (ok a), v) db (inl (same, fails)) =
        absurd (fails a refl)
    optimized_lem plan mode w w' passed (none, v) db (inr (a, started, e, f, g, h)) = cc
    optimized_lem plan mode w w' passed (some (err x), v) db (inr (a, started, e, f, g, h)) = cc
    optimized_lem plan mode w w' passed (some (ok b), v) db (inr (a, started, e, f, g, h)) =
        inr (record {
          passed = passed;
          started = started;
          same = g ∙ db;
          finished = f;
          result = housekeeping.optimize v.db ∙ h;
        })

    written_lem :
        (plan : Plan) (mode : ApplyMode) (w w' : World D) (passed : Passed sqlite plan mode w)
        → All (OpInside passed.actual) plan.ops
        → saved w.db ≡ none
        → w'.db ≡ w.db
        → Atomic plan mode w (writes sqlite plan passed.actual passed.current w')
    unfolding writes ◌>>=◌
    written_lem plan mode w w' passed inside outside db =
        let body = apply_body sqlite plan passed.actual passed.current in
        let inside' = subst (All (OpInside passed.actual)) (sym passed.fits.ops) inside in
        optimized_lem plan mode w w' passed (immediate_transaction sqlite body w') (ap content db) (
          immediate_transaction-AllOrNothing sqlite transactions body w'
            (apply_body-Stays plan passed.actual passed.current inside') (ap saved db ∙ outside))

    -- Over a database with the transactions of SQLite, and outside of any, applying a plan whose
    -- operations run no statement that begins or ends a transaction either does not succeed and
    -- leaves the content from before, or found that the plan fits the live database, and leaves the
    -- content that the body of its transaction left, which ran to its end.
    pub apply-Atomic :
        (plan : Plan) (mode : ApplyMode) (w : World D)
        → ((actual : TreeMap ActualTable)
            → (introspect_managed sqlite (plan_scope plan) w).0 ≡ some (ok actual)
            → All (OpInside actual) plan.ops)
        → saved w.db ≡ none
        → Atomic plan mode w (apply sqlite plan mode w)
    unfolding Atomic Safe
    apply-Atomic plan mode w inside outside = elim (apply_cases sqlite plan mode w) [
      | inl (same, fails) ↦ inl (ap content same, fails)
      | inr (passed, w', db, runs) ↦
          subst (Atomic plan mode w) (sym runs)
            (written_lem plan mode w w' passed (inside passed.actual passed.read) outside db)
    ]
