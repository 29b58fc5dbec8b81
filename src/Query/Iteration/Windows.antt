-- ===== src/Query/Iteration/Windows.antt =====
-- The rows of a query's window, and the pages that the iterators of src/model/query read of it.
use seekwel.Prelude.{
  ℕ, zero, suc, ◌+◌, ◌-◌, ◌≤◌, min, ◌≡◌, refl, sym, ap, ◌∙◌, true, Option, none, some, List, [],
  ◌∷◌, length, take, drop, drop-drop, length-take, length-drop, arith,
}
use seekwel.Errors.{Result, ok}
use seekwel.Connection.Log.{QueryLog}
use seekwel.Query.Plan.{
  QueryPlan, rows_query, remaining_limit, at_most, paged_query, saturating_add, usize_max,
}
use seekwel.Query.Iteration.{Database, Cursor, is_zero, prepend, collect}

module _ {A : Type 0} where
  -- `LIMIT` and `OFFSET`: the rows from `offset` on, and no more than the limit.
  abbrev pub cut : Option ℕ → List A → List A
  cut none l = l
  cut (some n) l = take n l

  abbrev pub window : Option ℕ → ℕ → List A → List A
  window limit offset rows = cut limit (drop offset rows)

  abbrev pub first_row : List A → Option A
  first_row [] = none
  first_row (row ∷ rows) = some row

  take-nil : (n : ℕ) → take {A = A} n [] ≡ []
  take-nil zero = refl
  take-nil (suc n) = refl

  take_at : (m n : ℕ) (l : List A) → m ≡ n → take m l ≡ take n l
  take_at m n l e = ap (λ k. take k l) e

  take-take : (m n : ℕ) (l : List A) → take m (take n l) ≡ take (min n m) l
  take-take zero n l = take_at 0 (min n 0) l (omega arith)
  take-take (suc m) zero l = take_at 0 (min 0 (suc m)) l (omega arith)
  take-take (suc m) (suc n) [] = sym (take-nil (min (suc n) (suc m)))
  take-take (suc m) (suc n) (x ∷ l) =
      ap (◌∷◌ x) (take-take m n l)
      ∙ take_at (suc (min n m)) (min (suc n) (suc m)) (x ∷ l) (omega arith)

  drop-take : (k n : ℕ) (l : List A) → drop k (take n l) ≡ take (n - k) (drop k l)
  drop-take zero n l = take_at n (n - 0) l (omega arith)
  drop-take (suc k) zero l = take_at 0 (0 - suc k) (drop (suc k) l) (omega arith)
  drop-take (suc k) (suc n) [] = sym (take-nil (suc n - suc k))
  drop-take (suc k) (suc n) (x ∷ l) =
      drop-take k n l ∙ take_at (n - k) (suc n - suc k) (drop k l) (omega arith)

  length-window :
      (limit : Option ℕ) (offset : ℕ) (l : List A) → length (window limit offset l) ≤ length l
  length-window none offset l = omega (arith, length-drop offset l)
  length-window (some n) offset l =
      omega (arith, length-take n (drop offset l), length-drop offset l)

  pub take_all : (n : ℕ) (l : List A) → length l ≤ n → take n l ≡ l
  take_all zero [] h = refl
  take_all zero (x ∷ l) h = absurd (omega arith)
  take_all (suc n) [] h = refl
  take_all (suc n) (x ∷ l) h = ap (◌∷◌ x) (take_all n l (omega arith))

  pub take-min : (m n : ℕ) (l : List A) → length l ≤ n → take (min n m) l ≡ take m l
  take-min m n l h = sym (take-take m n l) ∙ ap (take m) (take_all n l h)

-- One round of a `for` loop.
module _ {S A : Type 0} (next : Cursor → QueryLog → Option (Result S A) × Cursor × QueryLog) where
  pub collect-item :
      (fuel : ℕ) {c c' : Cursor} {log log' : QueryLog} {item : Result S A}
      → next c log ≡ (some item, c', log')
      → collect next (suc fuel) c log ≡ prepend item (collect next fuel c' log')
  unfolding collect
  collect-item fuel step =
      ap
        (λ (t : Option (Result S A) × Cursor × QueryLog).
          let rest = collect next fuel t.1 t.2 in
          elim t.0 [ none ↦ some [] | some i ↦ prepend i rest ])
        step

  pub collect-end :
      (fuel : ℕ) {c c' : Cursor} {log log' : QueryLog}
      → next c log ≡ (none, c', log')
      → collect next (suc fuel) c log ≡ some []
  unfolding collect
  collect-end fuel step =
      ap
        (λ (t : Option (Result S A) × Cursor × QueryLog).
          let rest = collect next fuel t.1 t.2 in
          elim t.0 [ none ↦ some [] | some i ↦ prepend i rest ])
        step

-- What a database without writers does: every statement for at most `most` rows is answered by the
-- window of its limit and offset in one list of rows.
pub record Answers {S V Row : Type 0} (db : Database S V Row) (plan : QueryPlan V) (rows : List Row)
    (most : ℕ) : Type 0 where
  pub get : db.get ≡ ok tt
  pub query_all :
      (limit offset : ℕ)
      → limit ≤ most
      → offset ≤ plan.offset + length rows
      → db.query_all (rows_query plan (some limit) offset) plan.params
        ≡ ok (window (some limit) offset rows)
  pub query_optional :
      (limit offset : ℕ)
      → limit ≤ most
      → offset ≤ plan.offset + length rows
      → db.query_optional (rows_query plan (some limit) offset) plan.params
        ≡ ok (first_row (window (some limit) offset rows))

module _ {V Row : Type 0} (plan : QueryPlan V) (rows : List Row) where
  -- The rows that the query stands for.
  abbrev pub plan_rows : List Row
  plan_rows = window plan.limit plan.offset rows

  abbrev remaining_of : Option ℕ → ℕ → Option ℕ
  remaining_of none consumed = none
  remaining_of (some n) consumed = some (n - consumed)

  page :
      (limit : Option ℕ) (offset size consumed : ℕ)
      → take (at_most plan (remaining_of limit consumed) size) (drop (offset + consumed) rows)
        ≡ take size (drop consumed (window limit offset rows))
  page none offset size consumed = ap (take size) (sym (drop-drop consumed offset rows))
  page (some n) offset size consumed =
      sym (take-take size (n - consumed) (drop (offset + consumed) rows))
      ∙ ap (λ l. take size (take (n - consumed) l)) (sym (drop-drop consumed offset rows))
      ∙ ap (take size) (sym (drop-take consumed n (drop offset rows)))

  remaining_limit_lem :
      (consumed : ℕ) → remaining_limit plan consumed ≡ remaining_of plan.limit consumed
  unfolding remaining_limit
  remaining_limit_lem consumed =
      elim plan.limit
        as (λ limit.
          (elim limit [ none ↦ none | some n ↦ some (n - consumed) ])
          ≡ remaining_of limit consumed) [ none ↦ refl | some n ↦ refl ]

  is_zero-some : (k : ℕ) → is_zero (some k) ≡ true → k ≡ 0
  is_zero-some zero h = refl
  is_zero-some (suc k) h = absurd (ground arith)

  -- With nothing left of the limit, nothing is left of the window.
  rest_of_zero :
      (limit : Option ℕ) (offset consumed : ℕ)
      → is_zero (remaining_of limit consumed) ≡ true
      → drop consumed (window limit offset rows) ≡ []
  rest_of_zero none offset consumed h = absurd (ground arith)
  rest_of_zero (some n) offset consumed h =
      drop-take consumed n (drop offset rows)
      ∙ take_at (n - consumed) 0 _ (is_zero-some (n - consumed) h)

  pub rest_of_is_zero :
      (consumed : ℕ) → is_zero (remaining_limit plan consumed) ≡ true → drop consumed plan_rows ≡ []
  rest_of_is_zero consumed h =
      rest_of_zero plan.limit plan.offset consumed (rw (← remaining_limit_lem consumed) h)

  -- No page asks for more than is left of the limit.
  length_rest :
      (limit : Option ℕ) (offset consumed n : ℕ)
      → remaining_of limit consumed ≡ some n
      → length (drop consumed (window limit offset rows)) ≤ n
  length_rest none offset consumed n e = absurd (ground arith)
  length_rest (some l) offset consumed n e =
      let same : l - consumed ≡ n = ground arith in
      omega (
        arith,
        same,
        length-drop consumed (take l (drop offset rows)),
        length-take l (drop offset rows),
      )

  pub length_remaining :
      (consumed n : ℕ)
      → remaining_limit plan consumed ≡ some n
      → length (drop consumed plan_rows) ≤ n
  length_remaining consumed n e =
      length_rest plan.limit plan.offset consumed n (sym (remaining_limit_lem consumed) ∙ e)

module _ {S V Row : Type 0} (db : Database S V Row) (plan : QueryPlan V) (rows : List Row)
    (most : ℕ) (answers : Answers db plan rows most)
    (small : plan.offset + length rows ≤ usize_max) where
  abbrev whole : List Row
  whole = plan_rows plan rows

  in_range : (consumed : ℕ) → consumed ≤ length whole → consumed ≤ length rows
  in_range consumed h = omega (arith, length-window plan.limit plan.offset rows)

  saturating_add_in_range :
      (consumed : ℕ)
      → consumed ≤ length whole
      → saturating_add plan.offset consumed ≡ plan.offset + consumed
  unfolding saturating_add
  saturating_add_in_range consumed h = omega (arith, in_range consumed h)

  at_most-le : (limit : Option ℕ) (size : ℕ) → at_most plan limit size ≤ size
  at_most-le none size = omega arith
  at_most-le (some n) size = omega arith

  paged :
      (size consumed : ℕ)
      → take
          (at_most plan (remaining_limit plan consumed) size)
          (drop (plan.offset + consumed) rows)
        ≡ take size (drop consumed whole)
  paged size consumed =
      ap (λ r. take (at_most plan r size) (drop (plan.offset + consumed) rows))
        (remaining_limit_lem plan rows consumed)
      ∙ page plan rows plan.limit plan.offset size consumed

  -- The answer to a page's statement is that page of the window.
  pub query_all-page :
      (size consumed : ℕ)
      → consumed ≤ length whole
      → size ≤ most
      → db.query_all (paged_query plan size consumed) plan.params
        ≡ ok (take size (drop consumed whole))
  unfolding paged_query saturating_add rows_query
  query_all-page size consumed h m =
      let limit = at_most plan (remaining_limit plan consumed) size in
      ap (λ offset. db.query_all (rows_query plan (some limit) offset) plan.params)
        (saturating_add_in_range consumed h)
      ∙ answers.query_all limit (plan.offset + consumed)
          (omega (arith, at_most-le (remaining_limit plan consumed) size))
          (omega (arith, in_range consumed h))
      ∙ ap ok (paged size consumed)

  pub query_optional-page :
      (size consumed : ℕ)
      → consumed ≤ length whole
      → size ≤ most
      → db.query_optional (paged_query plan size consumed) plan.params
        ≡ ok (first_row (take size (drop consumed whole)))
  unfolding paged_query saturating_add rows_query
  query_optional-page size consumed h m =
      let limit = at_most plan (remaining_limit plan consumed) size in
      ap (λ offset. db.query_optional (rows_query plan (some limit) offset) plan.params)
        (saturating_add_in_range consumed h)
      ∙ answers.query_optional limit (plan.offset + consumed)
          (omega (arith, at_most-le (remaining_limit plan consumed) size))
          (omega (arith, in_range consumed h))
      ∙ ap (λ l. ok (first_row l)) (paged size consumed)
