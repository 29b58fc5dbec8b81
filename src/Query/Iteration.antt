-- ===== src/Query/Iteration.antt =====
-- The iterators of src/model/query/lazy.rs and src/model/query/chunked.rs.
pub mod Windows
pub mod LazyRows
pub mod ChunkedRows
use seekwel.Prelude.{
  ℕ, zero, suc, ◌+◌, min, Bool, true, false, ◌||◌, Option, none, some, List, [], ◌∷◌, Text, ltb,
  length, if◌then◌else◌,
}
use seekwel.Errors.{Result, ok, err}
use seekwel.Connection.Log.{QueryLog, record_query_with_params}
use seekwel.Query.Plan.{QueryPlan, remaining_limit, paged_query}

-- The database while nobody writes to it: `Connection::get`, `query_all_read` with
-- `M::from_row`, and `query_optional_read` with the same.
pub record Database (S V Row : Type 0) : Type 0 where
  pub get : Result S (Unit {0})
  pub query_all : Text → List V → Result S (List Row)
  pub query_optional : Text → List V → Result S (Option Row)

-- `matches!(remaining, Some(0))`
abbrev pub is_zero : Option ℕ → Bool
is_zero none = false
is_zero (some zero) = true
is_zero (some (suc n)) = false

-- The fields of `LazyTryIter` and of `ChunkedTryIter` that change.
pub record Cursor : Type 0 where
  pub consumed : ℕ
  pub done : Bool

abbrev pub start : Cursor
start = record { consumed = 0; done = false }

module _ {S V Row : Type 0} (render : V → Text) (db : Database S V Row) (plan : QueryPlan V) where
  -- What `next` returns, and the state that it leaves.
  abbrev Next : Type 0 → Type 0
  Next A = Option (Result S A) × Cursor × QueryLog

  finished : {A : Type 0} → Option (Result S A) → Cursor → QueryLog → Next A
  finished item c log = (item, record c { done = true }, log)

  lazy_row : Result S (Option Row) → Cursor → QueryLog → Next Row
  unfolding finished
  lazy_row (ok (some model)) c log = (some (ok model), record c { consumed = c.consumed + 1 }, log)
  lazy_row (ok none) c log = finished none c log
  lazy_row (err e) c log = finished (some (err e)) c log

  lazy_fetch : Result S (Unit {0}) → Cursor → QueryLog → Next Row
  unfolding lazy_row finished
  lazy_fetch (err e) c log = finished (some (err e)) c log
  lazy_fetch (ok _) c log =
      let query = paged_query plan 1 c.consumed in
      lazy_row (db.query_optional query plan.params) c
        (record_query_with_params render query plan.params log)

  unfoldable pub lazy_next : Cursor → QueryLog → Next Row
  unfolding lazy_fetch finished
  lazy_next c log =
      if c.done
      then (none, c, log)
      else if is_zero (remaining_limit plan c.consumed)
      then finished none c log
      else lazy_fetch db.get c log

  module _ (chunk_size : ℕ) where
    chunk_rows : ℕ → Result S (List Row) → Cursor → QueryLog → Next (List Row)
    unfolding finished
    chunk_rows chunk_limit (ok []) c log = finished none c log
    chunk_rows chunk_limit (ok (row ∷ rows)) c log =
        let consumed = c.consumed + length (row ∷ rows) in
        (
          some (ok (row ∷ rows)),
          record {
            consumed = consumed;
            done = ltb (length (row ∷ rows)) chunk_limit || is_zero (remaining_limit plan consumed);
          },
          log,
        )
    chunk_rows chunk_limit (err e) c log = finished (some (err e)) c log

    -- `remaining.map_or(chunk_size, |remaining| remaining.min(chunk_size))`
    abbrev chunk_limit_of : Option ℕ → ℕ
    chunk_limit_of none = chunk_size
    chunk_limit_of (some remaining) = min remaining chunk_size

    chunk_fetch : Result S (Unit {0}) → Cursor → QueryLog → Next (List Row)
    unfolding chunk_rows finished
    chunk_fetch (err e) c log = finished (some (err e)) c log
    chunk_fetch (ok _) c log =
        let chunk_limit = chunk_limit_of (remaining_limit plan c.consumed) in
        let query = paged_query plan chunk_limit c.consumed in
        chunk_rows chunk_limit (db.query_all query plan.params) c
          (record_query_with_params render query plan.params log)

    unfoldable pub chunked_next : Cursor → QueryLog → Next (List Row)
    unfolding chunk_fetch finished
    chunked_next c log =
        if c.done
        then (none, c, log)
        else if is_zero (remaining_limit plan c.consumed)
        then finished none c log
        else chunk_fetch db.get c log

abbrev pub prepend : {A : Type 0} → A → Option (List A) → Option (List A)
prepend item none = none
prepend item (some items) = some (item ∷ items)

-- A `for` loop over an iterator: its items, if it ends within the fuel.
module _ {S A : Type 0} (next : Cursor → QueryLog → Option (Result S A) × Cursor × QueryLog) where
  unfoldable pub collect : ℕ → Cursor → QueryLog → Option (List (Result S A))
  collect zero c log = none
  collect (suc fuel) c log =
      let (item, c', log') = next c log in
      let rest = collect fuel c' log' in elim item [ none ↦ some [] | some i ↦ prepend i rest ]
