-- ===== src/Tests/Transaction.antt =====
-- `Connection::transaction` of src/connection.rs over a database whose content is a number.
use seekwel.Prelude.{
  ℕ, ◌+◌, ◌≡◌, refl, true, Option, none, some, List, [], ◌∷◌, Text, codes, eqb, if◌then◌else◌,
}
use seekwel.Errors.{rollback, Result, ok, err}
use seekwel.Connection.Transaction.{TransactionState, World, Step, transaction}
use seekwel.Connection.Transaction.Rollback.{Savepoints, IsAt, nested_undoes, outer_clears}

-- The content, and the savepoints with theirs.
abbrev Numbers : Type 0
Numbers = ℕ × List (Text × ℕ)

abbrev behind : Text → Text → Option Text
behind [] s = some s
behind (c ∷ p) [] = none
behind (c ∷ p) (d ∷ s) = if eqb c d then behind p s else none

abbrev back : List (Text × ℕ) → ℕ → ℕ
back [] n = n
back ((name, c) ∷ rest) n = c

abbrev below : List (Text × ℕ) → List (Text × ℕ)
below [] = []
below (s ∷ rest) = rest

-- The last savepoint is the one that a statement names.
abbrev execute : Text → Numbers → Result ℕ (Unit {0}) × Numbers
execute sql (n, st) = elim (behind (codes "SAVEPOINT ") sql) [
  | some name ↦ (ok tt, (n, (name, n) ∷ st))
  | none ↦ elim (behind (codes "ROLLBACK TO SAVEPOINT ") sql) [
    | some name ↦ (ok tt, (back st n, st))
    | none ↦ elim (behind (codes "RELEASE SAVEPOINT ") sql) [
      | some name ↦ (ok tt, (n, below st))
      | none ↦ (ok tt, (n, st))
    ]
  ]
]

abbrev number_savepoints : Savepoints execute ℕ
number_savepoints = record {
  stack = λ d. d.1;
  content = λ d. d.0;
  savepoint = λ name d. (refl, refl, refl);
  rollback_to = λ name c rest d h. (refl, h, (λ i. back (h i) d.0));
  release = λ name c rest d h. (refl, (λ i. below (h i)), refl);
}

-- A closure that writes and then asks for a rollback.
abbrev write_and_fail : Step Numbers (Result ℕ ℕ)
write_and_fail w = (some (err rollback), record w { db = (w.db.0 + 5, w.db.1) })

abbrev outer_state : TransactionState
outer_state = record { depth = 1; next_savepoint = 0 }

abbrev inside : World Numbers
inside = record { initialized = true; state = some outer_state; log = []; db = (7, []) }

nested_undoes_example :
    ((transaction execute write_and_fail inside).0 ≡ some (err rollback))
    × IsAt execute number_savepoints 1 [] (transaction execute write_and_fail inside).1
    × ((transaction execute write_and_fail inside).1.db.0 ≡ 7)
nested_undoes_example =
    nested_undoes execute number_savepoints write_and_fail outer_state inside
      (λ depth savepoints w h. record { next = h.next; state = h.state; stack = h.stack }) refl

abbrev idle : World Numbers
idle = record { initialized = true; state = none; log = []; db = (7, []) }

outer_clears_example : (transaction execute write_and_fail idle).1.state ≡ none
outer_clears_example = outer_clears execute write_and_fail idle refl
