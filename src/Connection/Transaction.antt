-- ===== src/Connection/Transaction.antt =====
-- `Connection::transaction` of src/connection.rs on one thread. The state `D` of the connection and
-- `execute_batch` are rusqlite's. A closure is a function from the world to what it returns and the
-- world that it leaves; it returns nothing when it panics.
pub mod Rollback
use seekwel.Prelude.{
  ℕ, ◌+◌, ◌-◌, Bool, true, false, not, Option, none, some, Text, codes, ◌++◌, eqb, if◌then◌else◌,
}
use seekwel.Prelude.Decimal.{decimal}
use seekwel.Errors.{Error, not_initialized, Result, ok, err}
use seekwel.Connection.Log.{QueryLog, record_query}

pub record TransactionState : Type 0 where
  pub depth : ℕ
  pub next_savepoint : ℕ

-- `initialized` is whether `GLOBAL` is set, `state` is `TX_STATE`.
pub record World (D : Type 0) : Type 0 where
  pub initialized : Bool
  pub state : Option TransactionState
  pub log : QueryLog
  pub db : D

abbrev pub Step : Type 0 → Type 0 → Type 0
Step D A = World D → Option A × World D

-- A panic ends a sequence of steps.
abbrev pub bind : {D A B : Type 0} → Option A × World D → (A → Step D B) → Option B × World D
bind (none, w) next = (none, w)
bind (some a, w) next = next a w

abbrev pub return : {D A : Type 0} → A → Step D A
return a w = (some a, w)

unfoldable pub savepoint_name : ℕ → Text
savepoint_name n = codes "__seekwel_savepoint_" ++ decimal n

module _ {S D : Type 0} (execute_batch : Text → D → Result S (Unit {0}) × D) where
  -- `record_query` and `execute_batch` on the writer.
  unfoldable pub batch : Text → World D → Result S (Unit {0}) × World D
  batch sql w =
      let (result, db) = execute_batch sql w.db in
      (result, record w { log = record_query sql w.log; db = db })

  -- The same through `with_required_transaction_connection`, which panics without a transaction.
  required_of : Option TransactionState → Text → Step D (Result S (Unit {0}))
  unfolding batch
  required_of none sql w = (none, record w { log = record_query sql w.log })
  required_of (some s) sql w = let (result, w') = batch sql w in (some result, w')

  abbrev required_batch : Text → Step D (Result S (Unit {0}))
  required_batch sql w = required_of w.state sql w

  release_savepoint : Text → Step D (Result S (Unit {0}))
  unfolding required_of
  release_savepoint name = required_batch (codes "RELEASE SAVEPOINT " ++ name)

  rollback_to_savepoint : Text → Step D (Result S (Unit {0}))
  unfolding required_of
  rollback_to_savepoint name = required_batch (codes "ROLLBACK TO SAVEPOINT " ++ name)

  -- `depth -= 1`: without a transaction it panics, and at 0 the subtraction does.
  finish_of : Option TransactionState → Step D (Unit {0})
  finish_of none w = (none, w)
  finish_of (some s) w =
      if eqb s.depth 0
      then (none, w)
      else (some tt, record w { state = some (record s { depth = s.depth - 1 }) })

  finish_savepoint : Step D (Unit {0})
  unfolding finish_of
  finish_savepoint w = finish_of w.state w

  opened_savepoint : Text → Result S (Unit {0}) → Step D (Result S Text)
  unfolding finish_savepoint
  opened_savepoint name (ok _) w = return (ok name) w
  opened_savepoint name (err e) w = bind (finish_savepoint w) (λ _. return (err e))

  begin_of : Option TransactionState → Step D (Result S Text)
  unfolding required_of opened_savepoint
  begin_of none w = (none, w)
  begin_of (some s) w =
      let name = savepoint_name (s.next_savepoint + 1) in
      bind
        (required_batch (codes "SAVEPOINT " ++ name) (record w {
          state = some (record { depth = s.depth + 1; next_savepoint = s.next_savepoint + 1 });
        }))
        (opened_savepoint name)

  begin_savepoint : Step D (Result S Text)
  unfolding begin_of
  begin_savepoint w = begin_of w.state w

  -- `release?; Ok(value)`
  released : {A : Type 0} → A → Result S (Unit {0}) → Result S A
  released value (ok _) = ok value
  released value (err e) = err e

  -- What a nested transaction does after its closure.
  closed : {A : Type 0} → Text → Option (Result S A) × World D → Option (Result S A) × World D
  unfolding release_savepoint rollback_to_savepoint finish_savepoint released
  closed name (some (ok value), w) =
      bind (release_savepoint name w)
        λ release w'. bind (finish_savepoint w') λ _. return (released value release)
  closed name (some (err e), w) = bind (rollback_to_savepoint name w) λ _ w'.
      bind (release_savepoint name w') λ _ w''. bind (finish_savepoint w'') λ _. return (err e)
  closed name (none, w) = bind (rollback_to_savepoint name w) λ _ w'.
      bind (release_savepoint name w') λ _ w''. bind (finish_savepoint w'') λ _ w'''. (none, w''')

  in_savepoint : {A : Type 0} → Step D (Result S A) → Result S Text → Step D (Result S A)
  unfolding closed
  in_savepoint f (err e) w = return (err e) w
  in_savepoint f (ok name) w = closed name (f w)

  unfoldable pub nested_transaction : {A : Type 0} → Step D (Result S A) → Step D (Result S A)
  unfolding begin_savepoint in_savepoint
  nested_transaction f w = bind (begin_savepoint w) (in_savepoint f)

  committed : {A : Type 0} → A → Result S (Unit {0}) × World D → Option (Result S A) × World D
  unfolding batch
  committed value (ok _, w) = (some (ok value), w)
  committed value (err e, w) = (some (err e), (batch (codes "ROLLBACK") w).1)

  -- `rollback(&writer)?; Err(error)`
  rolled_back : {A : Type 0} → Error S → Result S (Unit {0}) → Result S A
  rolled_back e (ok _) = err e
  rolled_back e (err e') = err e'

  -- What an outer transaction does after its closure, once `TX_STATE` is cleared.
  ended : {A : Type 0} → Option (Result S A) → World D → Option (Result S A) × World D
  unfolding batch committed rolled_back
  ended (some (ok value)) w = committed value (batch (codes "COMMIT") w)
  ended (some (err e)) w =
      let (result, w') = batch (codes "ROLLBACK") w in (some (rolled_back e result), w')
  ended none w = (none, (batch (codes "ROLLBACK") w).1)

  begun :
      {A : Type 0}
      → Step D (Result S A)
      → Result S (Unit {0}) × World D
      → Option (Result S A) × World D
  unfolding ended
  begun f (err e, w) = (some (err e), w)
  begun f (ok _, w) =
      let (outcome, w') =
        f (record w { state = some (record { depth = 1; next_savepoint = 0 }) }) in
      ended outcome (record w' { state = none })

  unfoldable pub outer_transaction : {A : Type 0} → Step D (Result S A) → Step D (Result S A)
  unfolding batch begun
  outer_transaction f w =
      if not w.initialized
      then (some (err not_initialized), w)
      else begun f (batch (codes "BEGIN IMMEDIATE") w)

  transaction_of :
      {A : Type 0} → Option TransactionState → Step D (Result S A) → Step D (Result S A)
  unfolding nested_transaction outer_transaction
  transaction_of none f = outer_transaction f
  transaction_of (some s) f = nested_transaction f

  unfoldable pub transaction : {A : Type 0} → Step D (Result S A) → Step D (Result S A)
  unfolding transaction_of
  transaction f w = transaction_of w.state f w
