-- ===== src/Query/Iteration/LazyRows.antt =====
-- `LazyTryIter` reads the whole window of its query, one row at a time.
use seekwel.Prelude.{
  ℕ, zero, suc, ◌+◌, ◌≤◌, ◌<◌, ◌≡◌, refl, sym, ap, ◌∙◌, true, false, none, some, List, [], ◌∷◌, map,
  Text, length, drop, drop-drop, length-drop, arith, Bool-cases, inl, inr,
}
use seekwel.Errors.{ok}
use seekwel.Connection.Log.{QueryLog, record_query_with_params}
use seekwel.Query.Plan.{QueryPlan, remaining_limit, paged_query, usize_max}
use seekwel.Query.Iteration.{
  Database, is_zero, Cursor, start, finished, lazy_row, lazy_fetch, lazy_next, prepend, collect,
}
use seekwel.Query.Iteration.Windows.{
  Answers, plan_rows, collect-item, collect-end, rest_of_is_zero, query_optional-page,
}

-- The state of an iterator that has returned `n` rows and goes on.
abbrev pub at : ℕ → Cursor
at n = record { consumed = n; done = false }

module _ {S V Row : Type 0} (render : V → Text) (db : Database S V Row) (plan : QueryPlan V)
    (rows : List Row) (answers : Answers db plan rows 1)
    (small : plan.offset + length rows ≤ usize_max) where
  -- The log with the statement for the row behind the first `n`.
  abbrev logged : ℕ → QueryLog → QueryLog
  logged n log = record_query_with_params render (paged_query plan 1 n) plan.params log

  lazy_next-row :
      (n : ℕ) (row : Row) (rest : List Row) (log : QueryLog)
      → n ≤ length (plan_rows plan rows)
      → drop n (plan_rows plan rows) ≡ row ∷ rest
      → lazy_next render db plan (at n) log ≡ (some (ok row), at (n + 1), logged n log)
  unfolding lazy_next lazy_fetch lazy_row
  lazy_next-row n row rest log h e = elim (Bool-cases (is_zero (remaining_limit plan n))) [
    | inl z ↦ absurd (let k = sym (rest_of_is_zero plan rows n z) ∙ e in cc)
    | inr z ↦ rw (
      lazy_next,
      z,
      answers.get,
      lazy_fetch,
      query_optional-page db plan rows 1 answers small 1 n h (omega arith),
      e,
    )
  ]

  lazy_next-end :
      (n : ℕ) (log : QueryLog)
      → n ≤ length (plan_rows plan rows)
      → drop n (plan_rows plan rows) ≡ []
      → (c : Cursor) × (log' : QueryLog) × (lazy_next render db plan (at n) log ≡ (none, c, log'))
  unfolding lazy_next lazy_fetch lazy_row finished
  lazy_next-end n log h e = elim (Bool-cases (is_zero (remaining_limit plan n))) [
    | inl z ↦ (record { consumed = n; done = true }, log, rw (lazy_next, z))
    | inr z ↦ (
      record { consumed = n; done = true },
      logged n log,
      rw (
        lazy_next,
        z,
        answers.get,
        lazy_fetch,
        query_optional-page db plan rows 1 answers small 1 n h (omega arith),
        e,
      ),
    )
  ]

  collect_from :
      (rest : List Row) (n fuel : ℕ) (log : QueryLog)
      → n ≤ length (plan_rows plan rows)
      → drop n (plan_rows plan rows) ≡ rest
      → length rest < fuel
      → collect (lazy_next render db plan) fuel (at n) log ≡ some (map ok rest)
  collect_from rest n zero log h e f = absurd (omega arith)
  collect_from [] n (suc fuel) log h e f =
      let (c, log', step) = lazy_next-end n log h e in collect-end _ fuel step
  collect_from (row ∷ rest) n (suc fuel) log h e f =
      collect-item _ fuel (lazy_next-row n row rest log h e)
      ∙ ap (prepend (ok row)) (
          collect_from rest (n + 1) fuel (logged n log)
            (omega (arith, length-drop n (plan_rows plan rows), ap length e))
            (sym (drop-drop 1 n (plan_rows plan rows)) ∙ ap (drop 1) e) (omega arith))

  -- Over a database that answers by the windows of a list of rows, with no offset beyond `usize`, a
  -- lazy iteration returns every row of the query's window, in order and without an error, and then
  -- ends: fuel above the number of the rows is enough.
  pub lazy_collects :
      (fuel : ℕ) (log : QueryLog)
      → length (plan_rows plan rows) < fuel
      → collect (lazy_next render db plan) fuel start log ≡ some (map ok (plan_rows plan rows))
  lazy_collects fuel log f = collect_from (plan_rows plan rows) 0 fuel log (omega arith) refl f
