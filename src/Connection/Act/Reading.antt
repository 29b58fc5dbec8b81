-- ===== src/Connection/Act/Reading.antt =====
-- Code on a connection that changes nothing but the log.
use seekwel.Prelude.{◌≡◌, refl, ap, ◌∙◌, Bool, true, false, Option, none, some, List, Text}
use seekwel.Errors.{Result, ok, err}
use seekwel.Connection.Value.{Value}
use seekwel.Connection.Transaction.{World}
use seekwel.Connection.Act.{
  Sqlite, Act, then_of, ◌>>=◌, lift, panic, branch, query_rows, query_all, query_optional,
  query_row,
}

module _ {S D : Type 0} where
  -- The world after a step is the one before, but for the log.
  pub data ReadsOnly {A : Type 0} (m : Act S D A) : Type 0 where
    reads_only : ((w : World D) → (m w).1 ≡ record w { log = (m w).1.log }) → ReadsOnly m

  pub kept :
      {A : Type 0} {m : Act S D A}
      → ReadsOnly m
      → (w : World D) → (m w).1 ≡ record w { log = (m w).1.log }
  kept (reads_only h) = h

  pub lift-ReadsOnly : {A : Type 0} (r : Result S A) → ReadsOnly (lift r)
  unfolding lift
  lift-ReadsOnly r = reads_only (λ w. refl)

  pub panic-ReadsOnly : {A : Type 0} → ReadsOnly (panic {S = S} {D = D} {A = A})
  unfolding panic
  panic-ReadsOnly = reads_only (λ w. refl)

  then_of-kept :
      {A B : Type 0} (next : A → Act S D B)
      → ((a : A) → ReadsOnly (next a))
      → (w : World D) (r : Option (Result S A) × World D) → r.1 ≡ record w { log = r.1.log }
      → (then_of next r).1 ≡ record w { log = (then_of next r).1.log }
  then_of-kept next h w (some (ok a), w') e =
      kept (h a) w' ∙ ap (λ (v : World D). record v { log = (next a w').1.log }) e
  then_of-kept next h w (some (err x), w') e = e
  then_of-kept next h w (none, w') e = e

  pub bind-ReadsOnly :
      {A B : Type 0} {m : Act S D A} {next : A → Act S D B}
      → ReadsOnly m
      → ((a : A) → ReadsOnly (next a))
      → ReadsOnly (m >>= next)
  unfolding ◌>>=◌
  bind-ReadsOnly {m = m} {next = next} h k =
      reads_only (λ w. then_of-kept next k w (m w) (kept h w))

  pub branch-ReadsOnly :
      {A : Type 0} (test : Bool) {m n : Act S D A}
      → ReadsOnly m
      → ReadsOnly n
      → ReadsOnly (branch test m n)
  unfolding branch
  branch-ReadsOnly true h k = h
  branch-ReadsOnly false h k = k

pub ruleset reading = (bind-ReadsOnly, lift-ReadsOnly, panic-ReadsOnly, branch-ReadsOnly)

module _ {S R Row D : Type 0} (sqlite : Sqlite S R Row D) where
  pub query_rows-ReadsOnly :
      (sql : Text) (params : List (Value R)) → ReadsOnly (query_rows sqlite sql params)
  unfolding query_rows
  query_rows-ReadsOnly sql params = reads_only (λ w. refl)

  module _ {A : Type 0} (sql : Text) (params : List (Value R)) (decode : Row → Result S A) where
    pub query_all-ReadsOnly : ReadsOnly (query_all sqlite sql params decode)
    unfolding query_all
    query_all-ReadsOnly = search (reading, query_rows-ReadsOnly)

    pub query_optional-ReadsOnly : ReadsOnly (query_optional sqlite sql params decode)
    unfolding query_optional
    query_optional-ReadsOnly = search (reading, query_rows-ReadsOnly)

    pub query_row-ReadsOnly : ReadsOnly (query_row sqlite sql params decode)
    unfolding query_row
    query_row-ReadsOnly = search (reading, query_optional-ReadsOnly)
