-- ===== src/Connection/Transaction/Rollback.antt =====
-- A nested transaction keeps its place in the outer one, and undoes a closure that failed.
use seekwel.Prelude.{
  ℕ, suc, ◌+◌, ◌-◌, ◌≡◌, refl, ap, ◌∙◌, false, Option, none, some, List, ◌∷◌, Text, codes, ◌++◌,
  eqb, arith, Bool-cases, inl, inr,
}
use seekwel.Connection.Log.{record_query}
use seekwel.Errors.{Result, ok, err}
use seekwel.Connection.Transaction.{
  TransactionState, World, Step, savepoint_name, batch, required_of, release_savepoint,
  rollback_to_savepoint, finish_of, finish_savepoint, opened_savepoint, begin_of, begin_savepoint,
  released, closed, in_savepoint, nested_transaction, committed, ended, begun, outer_transaction,
  transaction_of, transaction,
}

-- What SQLite documents of savepoints: a connection has a stack of them, each with the content to go
-- back to.
pub record Savepoints {S D : Type 0} (execute_batch : Text → D → Result S (Unit {0}) × D)
    (C : Type 0) : Type 0 where
  pub stack : D → List (Text × C)
  pub content : D → C
  pub savepoint :
      (name : Text) (d : D)
      → let r = execute_batch (codes "SAVEPOINT " ++ name) d in
        (r.0 ≡ ok tt) × (stack r.1 ≡ (name, content d) ∷ stack d) × (content r.1 ≡ content d)
  pub rollback_to :
      (name : Text) (c : C) (rest : List (Text × C)) (d : D)
      → stack d ≡ (name, c) ∷ rest
      → let r = execute_batch (codes "ROLLBACK TO SAVEPOINT " ++ name) d in
        (r.0 ≡ ok tt) × (stack r.1 ≡ (name, c) ∷ rest) × (content r.1 ≡ c)
  pub release :
      (name : Text) (c : C) (rest : List (Text × C)) (d : D)
      → stack d ≡ (name, c) ∷ rest
      → let r = execute_batch (codes "RELEASE SAVEPOINT " ++ name) d in
        (r.0 ≡ ok tt) × (stack r.1 ≡ rest) × (content r.1 ≡ content d)

-- The content of a database after a closure, or the one before where it failed.
abbrev pub kept_content : {S A C : Type 0} → Option (Result S A) → C → C → C
kept_content (some (ok value)) before after = after
kept_content (some (err e)) before after = before
kept_content none before after = before

module _ {S D C : Type 0} (execute_batch : Text → D → Result S (Unit {0}) × D)
    (sqlite : Savepoints execute_batch C) where
  -- A world in a transaction of this depth, with these savepoints on the stack.
  pub record IsAt (depth : ℕ) (savepoints : List (Text × C)) (w : World D) : Type 0 where
    pub next : ℕ
    pub state : w.state ≡ some (record { depth = depth; next_savepoint = next })
    pub stack : sqlite.stack w.db ≡ savepoints

  -- A step that goes on, without an error, in such a world with the content `kept`.
  abbrev Goes : {A : Type 0} → A → Option A × World D → ℕ → List (Text × C) → C → Type 0
  Goes a r depth savepoints kept =
      (w' : World D) × (r ≡ (some a, w')) × IsAt depth savepoints w' × (sqlite.content w'.db ≡ kept)

  release-Goes :
      (name : Text) (c : C) (rest : List (Text × C)) (depth : ℕ) (w : World D)
      → IsAt depth ((name, c) ∷ rest) w
      → Goes (ok tt) (release_savepoint execute_batch name w) depth rest (sqlite.content w.db)
  unfolding release_savepoint required_of batch
  release-Goes name c rest depth w h =
      let (e, t, k) = sqlite.release name c rest w.db h.stack in
      (
        (batch execute_batch (codes "RELEASE SAVEPOINT " ++ name) w).1,
        rw (h.state, required_of, e),
        record { next = h.next; state = h.state; stack = t },
        k,
      )

  rollback-Goes :
      (name : Text) (c : C) (rest : List (Text × C)) (depth : ℕ) (w : World D)
      → IsAt depth ((name, c) ∷ rest) w
      → Goes (ok tt) (rollback_to_savepoint execute_batch name w) depth ((name, c) ∷ rest) c
  unfolding rollback_to_savepoint required_of batch
  rollback-Goes name c rest depth w h =
      let (e, t, k) = sqlite.rollback_to name c rest w.db h.stack in
      (
        (batch execute_batch (codes "ROLLBACK TO SAVEPOINT " ++ name) w).1,
        rw (h.state, required_of, e),
        record { next = h.next; state = h.state; stack = t },
        k,
      )

  finish-Goes :
      (depth : ℕ) (savepoints : List (Text × C)) (w : World D)
      → IsAt (suc depth) savepoints w
      → Goes tt (finish_savepoint execute_batch w) depth savepoints (sqlite.content w.db)
  unfolding finish_savepoint finish_of
  finish-Goes depth savepoints w h =
      let positive : eqb (suc depth) 0 ≡ false = ground arith in
      let one_less : suc depth - 1 ≡ depth = omega arith in
      (
        record w { state = some (record { depth = depth; next_savepoint = h.next }) },
        rw (h.state, finish_of, positive, one_less),
        record { next = h.next; state = refl; stack = h.stack },
        refl,
      )

  closed_lem :
      {A : Type 0} (name : Text) (c : C) (rest : List (Text × C)) (depth : ℕ)
      (outcome : Option (Result S A)) (w : World D)
      → IsAt (suc depth) ((name, c) ∷ rest) w
      → let r = closed execute_batch name (outcome, w) in
        (r.0 ≡ outcome)
        × IsAt depth rest r.1
        × (sqlite.content r.1.db ≡ kept_content outcome c (sqlite.content w.db))
  unfolding closed released
  closed_lem name c rest depth (some (ok value)) w h =
      let (w1, e1, h1, k1) = release-Goes name c rest (suc depth) w h in
      let (w2, e2, h2, k2) = finish-Goes depth rest w1 h1 in rw (e1, e2) (refl, h2, k2 ∙ k1)
  closed_lem name c rest depth (some (err e)) w h =
      let (w0, e0, h0, k0) = rollback-Goes name c rest (suc depth) w h in
      let (w1, e1, h1, k1) = release-Goes name c rest (suc depth) w0 h0 in
      let (w2, e2, h2, k2) = finish-Goes depth rest w1 h1 in
      rw (e0, e1, e2) (refl, h2, k2 ∙ k1 ∙ k0)
  closed_lem name c rest depth none w h =
      let (w0, e0, h0, k0) = rollback-Goes name c rest (suc depth) w h in
      let (w1, e1, h1, k1) = release-Goes name c rest (suc depth) w0 h0 in
      let (w2, e2, h2, k2) = finish-Goes depth rest w1 h1 in
      rw (e0, e1, e2) (refl, h2, k2 ∙ k1 ∙ k0)

  -- The world in which the closure of a nested transaction starts: one deeper, with a savepoint.
  abbrev pub opened : TransactionState → World D → World D
  opened s w =
      let sql = codes "SAVEPOINT " ++ savepoint_name (s.next_savepoint + 1) in
      record w {
        state = some (record { depth = s.depth + 1; next_savepoint = s.next_savepoint + 1 });
        log = record_query sql w.log;
        db = (execute_batch sql w.db).1;
      }

  begin_of-opened :
      (s : TransactionState) (w : World D)
      → begin_of execute_batch (some s) w
        ≡ (some (ok (savepoint_name (s.next_savepoint + 1))), opened s w)
  unfolding begin_of required_of batch opened_savepoint
  begin_of-opened s w = rw (sqlite.savepoint (savepoint_name (s.next_savepoint + 1)) w.db).0

  opened-IsAt :
      (s : TransactionState) (w : World D)
      → IsAt
          (suc s.depth)
          ((savepoint_name (s.next_savepoint + 1), sqlite.content w.db) ∷ sqlite.stack w.db)
          (opened s w)
  opened-IsAt s w = record {
    next = s.next_savepoint + 1;
    state =
        ap (λ d. some (record { depth = d; next_savepoint = s.next_savepoint + 1 })) (omega arith);
    stack = (sqlite.savepoint (savepoint_name (s.next_savepoint + 1)) w.db).1;
  }

  transaction-closed :
      {A : Type 0} (f : Step D (Result S A)) (s : TransactionState) (w : World D)
      → w.state ≡ some s
      → transaction execute_batch f w
        ≡ closed execute_batch (savepoint_name (s.next_savepoint + 1)) (f (opened s w))
  unfolding transaction transaction_of nested_transaction begin_savepoint in_savepoint
  transaction-closed f s w h = rw (h, transaction_of, begin_of-opened s w)

  -- The closure leaves the depth and the savepoints that it finds.
  abbrev pub Keeps : {A : Type 0} → Step D (Result S A) → Type 0
  Keeps f =
      (depth : ℕ) (savepoints : List (Text × C)) (w : World D)
      → IsAt depth savepoints w
      → IsAt depth savepoints (f w).1

  -- Over SQLite's savepoints, a transaction inside another one, of a closure that leaves the depth and
  -- the savepoints that it finds, returns or panics as the closure does from its savepoint. It leaves
  -- the depth and the savepoints that it found, and the content that the closure left if that
  -- succeeded, else the content from before.
  pub nested_undoes :
      {A : Type 0} (f : Step D (Result S A)) (s : TransactionState) (w : World D)
      → Keeps f
      → w.state ≡ some s
      → let r = transaction execute_batch f w in
        let inner = f (opened s w) in
        (r.0 ≡ inner.0)
        × IsAt s.depth (sqlite.stack w.db) r.1
        × (sqlite.content r.1.db
            ≡ kept_content inner.0 (sqlite.content w.db) (sqlite.content inner.1.db))
  nested_undoes f s w keeps h = rw (transaction-closed f s w h) (
      closed_lem (savepoint_name (s.next_savepoint + 1)) (sqlite.content w.db) (sqlite.stack w.db)
        s.depth (f (opened s w)).0 (f (opened s w)).1 (keeps _ _ (opened s w) (opened-IsAt s w)))

module _ {S D A : Type 0} (execute_batch : Text → D → Result S (Unit {0}) × D) where
  committed-clear :
      (value : A) (r : Result S (Unit {0})) (w : World D)
      → w.state ≡ none
      → (committed execute_batch value (r, w)).1.state ≡ none
  unfolding committed batch
  committed-clear value (ok _) w h = h
  committed-clear value (err e) w h = h

  ended-clear :
      (outcome : Option (Result S A)) (w : World D)
      → w.state ≡ none
      → (ended execute_batch outcome w).1.state ≡ none
  unfolding ended batch
  ended-clear (some (ok value)) w h = committed-clear value _ _ h
  ended-clear (some (err e)) w h = h
  ended-clear none w h = h

  begun-clear :
      (f : Step D (Result S A)) (r : Result S (Unit {0})) (w : World D)
      → w.state ≡ none
      → (begun execute_batch f (r, w)).1.state ≡ none
  unfolding begun
  begun-clear f (ok _) w h = ended-clear _ _ refl
  begun-clear f (err e) w h = h

  -- A transaction that is not inside another one leaves none behind, whatever its closure does and
  -- whatever the database answers.
  pub outer_clears :
      (f : Step D (Result S A)) (w : World D)
      → w.state ≡ none
      → (transaction execute_batch f w).1.state ≡ none
  unfolding transaction transaction_of outer_transaction batch
  outer_clears f w h = elim (Bool-cases w.initialized) [
    | inl i ↦ rw (h, transaction_of, i) (begun-clear f _ _ refl)
    | inr i ↦ rw (h, transaction_of, i) refl
  ]
