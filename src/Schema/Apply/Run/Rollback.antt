-- ===== src/Schema/Apply/Run/Rollback.antt =====
-- `immediate_transaction` of src/schema/apply.rs leaves all of its work or none.
use seekwel.Prelude.{
  ◌≡◌, ◌≢◌, refl, sym, ap, ◌∙◌, ◌⊎◌, inl, inr, Option, none, some, List, Text, codes,
}
use seekwel.Connection.Value.{Value}
use seekwel.Errors.{Result, ok, err}
use seekwel.Connection.Transaction.{World}
use seekwel.Connection.Act.{Sqlite, Act, then_of, ◌>>=◌, run_batch}
use seekwel.Schema.Apply.Run.{commit_or_roll_back, close_transaction, immediate_transaction}

-- What SQLite documents of a transaction: while one is open, the content to go back to is saved.
-- `Inside` are the statements that neither begin nor end a transaction.
pub record Transactions {S R Row D : Type 0} (sqlite : Sqlite S R Row D) (C : Type 0) : Type 1 where
  pub saved : D → Option C
  pub content : D → C
  pub Inside : Text → Type 0
  pub begin :
      (d : D)
      → saved d ≡ none
      → let r = sqlite.execute_batch (codes "BEGIN IMMEDIATE") d in
        (content r.1 ≡ content d) × ((r.0 ≢ ok tt) ⊎ (saved r.1 ≡ some (content d)))
  pub commit :
      (d : D) (c : C)
      → saved d ≡ some c
      → let r = sqlite.execute_batch (codes "COMMIT") d in
        ((r.0 ≡ ok tt) × (content r.1 ≡ content d)) ⊎ ((r.0 ≢ ok tt) × (saved r.1 ≡ some c))
  pub rollback :
      (d : D) (c : C) → saved d ≡ some c → content (sqlite.execute_batch (codes "ROLLBACK") d).1 ≡ c
  pub inside_batch :
      (sql : Text) (d : D) (c : C)
      → Inside sql
      → saved d ≡ some c
      → saved (sqlite.execute_batch sql d).1 ≡ some c
  pub inside_execute :
      (sql : Text) (params : List (Value R)) (d : D) (c : C)
      → Inside sql
      → saved d ≡ some c
      → saved (sqlite.execute sql params d).1 ≡ some c

module _ {S R Row D C : Type 0} (sqlite : Sqlite S R Row D)
    (transactions : Transactions sqlite C) where
  open transactions use {saved, content}

  -- The code leaves a transaction open that it finds open.
  pub data StaysInside {A : Type 0} (m : Act S D A) : Type 0 where
    stays_inside :
        ((w : World D) (c : C) → saved w.db ≡ some c → saved (m w).1.db ≡ some c) → StaysInside m

  pub stays :
      {A : Type 0} {m : Act S D A}
      → StaysInside m
      → (w : World D) (c : C) → saved w.db ≡ some c
      → saved (m w).1.db ≡ some c
  stays (stays_inside h) = h

  -- Either nothing is left and the code did not succeed, or it ran to its end and is kept.
  unfoldable pub AllOrNothing :
      {A : Type 0} → Act S D A → World D → Option (Result S A) × World D → Type 0
  AllOrNothing {A} f w r =
      ((content r.1.db ≡ content w.db) × ((a : A) → r.0 ≢ some (ok a)))
      ⊎ ((a : A) × (started : World D) × (r.0 ≡ some (ok a))
          × ((f started).0 ≡ some (ok a))
          × (content started.db ≡ content w.db)
          × (content r.1.db ≡ content (f started).1.db))

  rolled_back :
      (w : World D) (c : C)
      → saved w.db ≡ some c
      → content (run_batch sqlite (codes "ROLLBACK") w).1.db ≡ c
  unfolding run_batch
  rolled_back w c h = transactions.rollback w.db c h

  -- The outcome of COMMIT: the content stays, or it goes back to what was saved.
  Committed : {A : Type 0} → A → C → C → Option (Result S A) × World D → Type 0
  Committed {A} a kept c r =
      ((r.0 ≡ some (ok a)) × (content r.1.db ≡ kept))
      ⊎ (((b : A) → r.0 ≢ some (ok b)) × (content r.1.db ≡ c))

  commit_or_roll_back_lem :
      {A : Type 0} (a : A) (kept c : C) (r : Result S (Unit {0})) (w : World D)
      → ((r ≡ ok tt) × (content w.db ≡ kept)) ⊎ ((r ≢ ok tt) × (saved w.db ≡ some c))
      → Committed a kept c (commit_or_roll_back sqlite a (some r, w))
  unfolding commit_or_roll_back Committed
  commit_or_roll_back_lem a kept c (ok _) w (inl (e, k)) = inl (refl, k)
  commit_or_roll_back_lem a kept c (ok _) w (inr (n, k)) = absurd (n refl)
  commit_or_roll_back_lem a kept c (err e) w (inl (q, k)) = cc
  commit_or_roll_back_lem a kept c (err e) w (inr (n, k)) = inr (λ b h. cc, rolled_back w c k)

  close_transaction_lem :
      {A : Type 0} (f : Act S D A) (w started : World D) (r : Option (Result S A) × World D)
      → f started ≡ r
      → content started.db ≡ content w.db
      → saved r.1.db ≡ some (content w.db)
      → AllOrNothing f w (close_transaction sqlite r)
  unfolding close_transaction AllOrNothing Committed run_batch
  close_transaction_lem {A} f w started (none, w') e same h =
      inl (rolled_back w' (content w.db) h, λ a q. cc)
  close_transaction_lem {A} f w started (some (err x), w') e same h =
      inl (rolled_back w' (content w.db) h, λ a q. cc)
  close_transaction_lem {A} f w started (some (ok a), w') e same h =
      let result = (sqlite.execute_batch (codes "COMMIT") w'.db).0 in
      let after = (run_batch sqlite (codes "COMMIT") w').1 in
      let committing = transactions.commit w'.db (content w.db) h in
      elim (commit_or_roll_back_lem a (content w'.db) (content w.db) result after committing) [
        | inl (q, k) ↦ inr (
          a,
          started,
          q,
          ap (λ x. x.0) e,
          same,
          k ∙ ap (λ (x : Option (Result S A) × World D). content x.1.db) (sym e),
        )
        | inr (n, k) ↦ inl (k, n)
      ]

  begun_lem :
      {A : Type 0} (f : Act S D A) (w w' : World D) (r : Result S (Unit {0}))
      → StaysInside f
      → content w'.db ≡ content w.db
      → (r ≢ ok tt) ⊎ (saved w'.db ≡ some (content w.db))
      → AllOrNothing f w (then_of (λ _ v. close_transaction sqlite (f v)) (some r, w'))
  unfolding AllOrNothing
  begun_lem f w w' (err e) h same began = inl (same, λ a q. cc)
  begun_lem f w w' (ok _) h same (inl n) = absurd (n refl)
  begun_lem f w w' (ok _) h same (inr k) =
      close_transaction_lem f w w' (f w') refl same (stays h w' (content w.db) k)

  -- Over a database with the transactions of SQLite, and outside of any, a transaction of code that
  -- stays inside it either does not succeed, whatever went wrong, and leaves the content from
  -- before, or returns what the code returned and leaves the content that the code left.
  pub immediate_transaction-AllOrNothing :
      {A : Type 0} (f : Act S D A) (w : World D)
      → StaysInside f
      → saved w.db ≡ none
      → AllOrNothing f w (immediate_transaction sqlite f w)
  unfolding immediate_transaction ◌>>=◌ run_batch AllOrNothing
  immediate_transaction-AllOrNothing f w h outside =
      let (same, began) = transactions.begin w.db outside in begun_lem f w _ _ h same began
