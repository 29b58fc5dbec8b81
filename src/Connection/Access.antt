-- ===== src/Connection/Access.antt =====
-- Initialization and the ways to a connection in src/connection.rs, on one thread: the locks are left
-- out, and the writer and the readers are one database.
use seekwel.Prelude.{
  Bool, true, false, Option, none, some, [], codes, ◌≡◌, ◌≢◌, refl, ◌∙◌, ◌⊎◌, inl, inr,
}
use seekwel.Errors.{already_initialized, not_initialized, invalid_schema, Result, ok, err, guard}
use seekwel.Connection.Transaction.{TransactionState, World}
use seekwel.Connection.Act.{Act, require, then_of, ◌>>=◌, ◌>>◌, lift}

module _ {S D : Type 0} where
  -- `Connection::file` and `Connection::memory` from the result of opening the database. The log is
  -- cleared before `GLOBAL` is set.
  unfoldable pub initialize : Result S D → Act S D (Unit {0})
  initialize (err e) w = (some (err e), w)
  initialize (ok db) w = elim w.initialized [
    | true ↦ (some (err already_initialized), record w { log = [] })
    | false ↦ (some (ok tt), record w { initialized = true; log = []; db = db })
  ]

  -- `manager()?`
  unfoldable pub manager : Act S D (Unit {0})
  manager w = require w.initialized not_initialized w

  -- `Connection::get`
  unfoldable pub get : Act S D (Unit {0})
  get = manager

  -- Code on the transaction's connection inside a transaction.
  connection_of : {A : Type 0} → Option TransactionState → Act S D A → Act S D A
  unfolding manager
  connection_of none f = manager >> f
  connection_of (some s) f = f

  unfoldable pub with_read : {A : Type 0} → Act S D A → Act S D A
  unfolding connection_of
  with_read f w = connection_of w.state f w

  unfoldable pub with_write : {A : Type 0} → Act S D A → Act S D A
  unfolding connection_of
  with_write f w = connection_of w.state f w

  guarded_open :
      {A : Type 0} (next : Act S D A) (w : World D) (initialized : Bool)
      → initialized ≡ true
      → then_of (λ _. next) (some (guard initialized not_initialized), w) ≡ next w
  guarded_open next w true e = refl
  guarded_open next w false e = cc

  guarded_closed :
      {A : Type 0} (next : Act S D A) (w : World D) (initialized : Bool)
      → initialized ≡ false
      → then_of (λ _. next) (some (guard initialized not_initialized), w)
        ≡ (some (err not_initialized), w)
  guarded_closed next w true e = cc
  guarded_closed next w false e = refl

  connection_of-open :
      {A : Type 0} (o : Option TransactionState) (f : Act S D A) (w : World D)
      → w.initialized ≡ true
      → connection_of o f w ≡ f w
  unfolding connection_of manager ◌>>=◌ lift
  connection_of-open none f w e = guarded_open f w w.initialized e
  connection_of-open (some s) f w e = refl

  -- With a connection, code through `Connection::get` runs on the world as it is.
  pub get-with_write :
      {A : Type 0} (f : Act S D A) (w : World D)
      → w.initialized ≡ true
      → (get >> with_write f) w ≡ f w
  unfolding get manager ◌>>=◌ with_write lift
  get-with_write f w e =
      guarded_open (with_write f) w w.initialized e ∙ connection_of-open w.state f w e

  -- Without one, it fails and leaves the world as it is.
  pub get-closed :
      {A : Type 0} (f : Act S D A) (w : World D)
      → w.initialized ≡ false
      → (get >> f) w ≡ (some (err not_initialized), w)
  unfolding get manager ◌>>=◌ lift
  get-closed f w e = guarded_closed f w w.initialized e

  exclusive_of : {A : Type 0} → Option TransactionState → Act S D A → Act S D A
  unfolding manager
  exclusive_of none f = manager >> f
  exclusive_of (some s) f =
      lift
        (err (invalid_schema (codes "exclusive schema operations cannot run inside a transaction")))

  unfoldable pub with_exclusive_write : {A : Type 0} → Act S D A → Act S D A
  unfolding exclusive_of
  with_exclusive_write f w = exclusive_of w.state f w

  opened_cases :
      {A : Type 0} (f : Act S D A) (w : World D) (initialized : Bool)
      → let r = then_of (λ _. f) (some (guard initialized not_initialized), w) in
        ((r.1 ≡ w) × ((a : A) → r.0 ≢ some (ok a))) ⊎ (r ≡ f w)
  opened_cases f w true = inr refl
  opened_cases f w false = inl (refl, λ a h. cc)

  exclusive_of_cases :
      {A : Type 0} (f : Act S D A) (w : World D) (o : Option TransactionState)
      → let r = exclusive_of o f w in
        ((r.1 ≡ w) × ((a : A) → r.0 ≢ some (ok a))) ⊎ ((o ≡ none) × (r ≡ f w))
  unfolding exclusive_of manager ◌>>=◌ lift
  exclusive_of_cases f w (some s) = inl (refl, λ a h. cc)
  exclusive_of_cases f w none = elim (opened_cases f w w.initialized) [
    | inl same ↦ inl same
    | inr runs ↦ inr (refl, runs)
  ]

  -- Under the exclusive lock, the code runs outside a transaction, or it fails at once.
  pub exclusive_cases :
      {A : Type 0} (f : Act S D A) (w : World D)
      → let r = with_exclusive_write f w in
        ((r.1 ≡ w) × ((a : A) → r.0 ≢ some (ok a))) ⊎ ((w.state ≡ none) × (r ≡ f w))
  unfolding with_exclusive_write
  exclusive_cases f w = exclusive_of_cases f w w.state
