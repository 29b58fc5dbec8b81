-- ===== src/Schema/History/Recorded.antt =====
-- The history table refines a list of schemas: recording one puts it in front, and loading gives the
-- front one.
use seekwel.Prelude.{◌≡◌, refl, sym, subst, ap, ◌∙◌, Option, some, List, [], ◌∷◌, map, Text, All}
use seekwel.Errors.{Result, ok}
use seekwel.Connection.Transaction.{World}
use seekwel.Connection.Act.{
  Sqlite, Act, then_of-ok, ◌>>=◌, ◌>>◌, lift, pure, run_batch, run_execute,
}
use seekwel.Schema.Types.{SchemaDef}
use seekwel.Schema.Canonical.{canonical_string}
use seekwel.Schema.History.{
  ensure_sql, insert_sql, history_row, ensure_history_table, load_latest_target_schema,
  record_success,
}
use seekwel.Schema.History.Latest.{
  HistoryTable, IsStorable, head_of, Represents, missing, present, load_latest_lem,
}

-- What `record_success` is given.
pub record Success : Type 0 where
  pub plan_id : Text
  pub source_fingerprint : Text
  pub target_fingerprint : Text
  pub target : SchemaDef

module _ {S R Row D : Type 0} (sqlite : Sqlite S R Row D) (history : HistoryTable sqlite) where
  open history use {stored}

  abbrev record_one : Success → Act S D (Unit {0})
  record_one s = record_success sqlite s.plan_id s.source_fingerprint s.target_fingerprint s.target

  -- The calls of `record_success` one after the other, up to the first error.
  unfoldable pub record_each : List Success → Act S D (Unit {0})
  record_each [] = pure tt
  record_each (s ∷ rest) = record_one s >> record_each rest

  -- The targets of the calls, the last one first, before those that were there.
  pub pushed : List Success → List SchemaDef → List SchemaDef
  pushed [] schemas = schemas
  pushed (s ∷ rest) schemas = pushed rest (s.target ∷ schemas)

  ensured :
      (w : World D) (schemas : List SchemaDef)
      → Represents sqlite history w.db schemas
      → (sqlite.execute_batch ensure_sql w.db).0 ≡ ok tt
      → stored (sqlite.execute_batch ensure_sql w.db).1 ≡ some (map canonical_string schemas)
  ensured w schemas (missing gone empty) e = history.ensure w.db e ∙ rw (gone, empty) refl
  ensured w schemas (present there) e = history.ensure w.db e ∙ rw there refl

  insert_one : Success → Act S D (Unit {0})
  insert_one s =
      run_execute sqlite insert_sql
        (history_row sqlite s.plan_id s.source_fingerprint s.target_fingerprint s.target)
      >>= λ n. pure tt

  some-eq : {A : Type 0} {x y : A} → some x ≡ some y → x ≡ y
  some-eq h = cc

  inserted :
      (s : Success) (schemas : List SchemaDef) (w : World D)
      → stored w.db ≡ some (map canonical_string schemas)
      → (insert_one s w).0 ≡ some (ok tt)
      → stored (insert_one s w).1.db ≡ some (map canonical_string (s.target ∷ schemas))
  unfolding insert_one run_execute ◌>>=◌ lift
  inserted s schemas w there h =
      let row = history_row sqlite s.plan_id s.source_fingerprint s.target_fingerprint s.target in
      let (n, e, runs) = then_of-ok (λ n. pure tt) (run_execute sqlite insert_sql row w) tt h in
      ap (λ (r : Option (Result S (Unit {0})) × World D). stored r.1.db) runs
      ∙ history.insert _ _ _ _ (canonical_string s.target) (map canonical_string schemas) w.db there
          n (some-eq e)

  recorded :
      (s : Success) (schemas : List SchemaDef) (w : World D)
      → Represents sqlite history w.db schemas
      → (record_one s w).0 ≡ some (ok tt)
      → stored (record_one s w).1.db ≡ some (map canonical_string (s.target ∷ schemas))
  unfolding record_success ensure_history_table insert_one run_batch ◌>>=◌
  recorded s schemas w h finished =
      let insert : Unit {0} → Act S D (Unit {0}) = λ _. insert_one s in
      let (u, e, runs) = then_of-ok insert (run_batch sqlite ensure_sql w) tt finished in
      ap (λ (r : Option (Result S (Unit {0})) × World D). stored r.1.db) runs
      ∙ inserted s schemas (run_batch sqlite ensure_sql w).1 (ensured w schemas h (some-eq e))
          (sym (ap (λ r. r.0) runs) ∙ finished)

  record_each-Represents :
      (successes : List Success) (schemas : List SchemaDef) (w : World D)
      → Represents sqlite history w.db schemas
      → (record_each successes w).0 ≡ some (ok tt)
      → Represents sqlite history (record_each successes w).1.db (pushed successes schemas)
  unfolding record_each pushed ◌>>=◌ lift
  record_each-Represents [] schemas w h finished = h
  record_each-Represents (s ∷ rest) schemas w h finished =
      let (u, e, runs) =
        then_of-ok (λ (u : Unit {0}). record_each rest) (record_one s w) tt finished in
      subst (λ r. Represents sqlite history r.1.db (pushed rest (s.target ∷ schemas))) (sym runs)
        (record_each-Represents rest (s.target ∷ schemas) (record_one s w).1
          (present (recorded s schemas w h e)) (sym (ap (λ r. r.0) runs) ∙ finished))

  pushed-IsStorable :
      (successes : List Success) (schemas : List SchemaDef)
      → All (λ (s : Success). IsStorable s.target) successes
      → All IsStorable schemas
      → All IsStorable (pushed successes schemas)
  unfolding pushed
  pushed-IsStorable [] schemas h k = k
  pushed-IsStorable (s ∷ rest) schemas h k =
      pushed-IsStorable rest (s.target ∷ schemas) h.1 (h.0, k)

  -- Over a history table that has the texts of some storable schemas, after calls of record_success
  -- with storable targets that all succeed, the latest target schema is the target of the last call,
  -- or what it was if there was no call.
  pub load_latest-record_each :
      (successes : List Success) (schemas : List SchemaDef) (w : World D)
      → Represents sqlite history w.db schemas
      → All IsStorable schemas
      → All (λ (s : Success). IsStorable s.target) successes
      → (record_each successes w).0 ≡ some (ok tt)
      → (load_latest_target_schema sqlite (record_each successes w).1).0
        ≡ some (ok (head_of (pushed successes schemas)))
  load_latest-record_each successes schemas w h storable targets finished =
      load_latest_lem sqlite history (record_each successes w).1 (pushed successes schemas)
        (record_each-Represents successes schemas w h finished)
        (pushed-IsStorable successes schemas targets storable)
