-- ===== src/Query/Iteration/ChunkedRows.antt =====
-- `ChunkedTryIter` reads the whole window of its query in chunks.
use seekwel.Prelude.{
  ℕ, zero, suc, ◌+◌, ◌≤◌, ◌<◌, ◌≡◌, refl, sym, ap, ◌∙◌, Bool, true, false, ◌||◌, Option, none, some,
  List, [], ◌∷◌, ◌++◌, map, Text, length, take, drop, drop-drop, length-drop, length-take, All, ltb,
  arith, Bool-cases, Option-cases, inl, inr,
}
use seekwel.Errors.{Result, ok}
use seekwel.Connection.Log.{QueryLog, record_query_with_params}
use seekwel.Query.Plan.{QueryPlan, remaining_limit, paged_query, usize_max}
use seekwel.Query.Iteration.{
  Database, is_zero, Cursor, start, finished, chunk_rows, chunk_limit_of, chunk_fetch, chunked_next,
  prepend, collect,
}
use seekwel.Query.Iteration.Windows.{
  Answers, plan_rows, rest_of_is_zero, length_remaining, take-min, collect-item, collect-end,
  query_all-page,
}

module _ {A : Type 0} where
  -- A list in pieces of `size`, the last one shorter where it has to be, on fuel above the length.
  pub chunks : ℕ → ℕ → List A → List (List A)
  chunks zero size l = []
  chunks (suc fuel) size [] = []
  chunks (suc fuel) size (x ∷ l) = take size (x ∷ l) ∷ chunks fuel size (drop size (x ∷ l))

  abbrev pub flatten : List (List A) → List A
  flatten [] = []
  flatten (l ∷ ls) = l ++ flatten ls

  take-drop : (n : ℕ) (l : List A) → take n l ++ drop n l ≡ l
  take-drop zero l = refl
  take-drop (suc n) [] = refl
  take-drop (suc n) (x ∷ l) = ap (◌∷◌ x) (take-drop n l)

  drop-length-take : (n : ℕ) (l : List A) → drop (length (take n l)) l ≡ drop n l
  drop-length-take zero l = refl
  drop-length-take (suc n) [] = refl
  drop-length-take (suc n) (x ∷ l) = drop-length-take n l

  nil_of_length : (l : List A) → length l ≤ 0 → l ≡ []
  nil_of_length [] h = refl
  nil_of_length (x ∷ l) h = absurd (omega arith)

  flatten-chunks : (fuel k : ℕ) (l : List A) → length l < fuel → flatten (chunks fuel (suc k) l) ≡ l
  unfolding chunks
  flatten-chunks zero k l h = absurd (omega arith)
  flatten-chunks (suc fuel) k [] h = refl
  flatten-chunks (suc fuel) k (x ∷ l) h =
      ap (λ r. x ∷ (take k l ++ r))
        (flatten-chunks fuel k (drop k l) (omega (arith, length-drop k l)))
      ∙ ap (◌∷◌ x) (take-drop k l)

  chunks-All :
      (fuel k : ℕ) (l : List A)
      → All (λ c. (0 < length c) × (length c ≤ suc k)) (chunks fuel (suc k) l)
  unfolding chunks
  chunks-All zero k l = tt
  chunks-All (suc fuel) k [] = tt
  chunks-All (suc fuel) k (x ∷ l) =
      ((omega arith, omega (arith, length-take k l)), chunks-All fuel k (drop k l))

module _ {S V Row : Type 0} (render : V → Text) (db : Database S V Row) (plan : QueryPlan V)
    (rows : List Row) (k : ℕ) (answers : Answers db plan rows (suc k))
    (small : plan.offset + length rows ≤ usize_max) where
  abbrev whole : List Row
  whole = plan_rows plan rows

  abbrev limit_at : ℕ → ℕ
  limit_at n = chunk_limit_of render db plan (suc k) (remaining_limit plan n)

  abbrev logged : ℕ → QueryLog → QueryLog
  logged n log = record_query_with_params render (paged_query plan (limit_at n) n) plan.params log

  -- Whether the iterator stops after the chunk behind the first `n` rows.
  abbrev stops : ℕ → List Row → Bool
  stops n chunk =
      ltb (length chunk) (limit_at n) || is_zero (remaining_limit plan (n + length chunk))

  abbrev next : Cursor → QueryLog → Option (Result S (List Row)) × Cursor × QueryLog
  next = chunked_next render db plan (suc k)

  limit_at_most : (n : ℕ) → limit_at n ≤ suc k
  limit_at_most n = elim (Option-cases (remaining_limit plan n)) [
    | inl e ↦ rw e (omega arith)
    | inr (r, e) ↦ rw e (omega arith)
  ]

  -- The limit of the query cuts no chunk short.
  chunk_is_full : (n : ℕ) → take (limit_at n) (drop n whole) ≡ take (suc k) (drop n whole)
  chunk_is_full n = elim (Option-cases (remaining_limit plan n)) [
    | inl e ↦ rw e refl
    | inr (r, e) ↦ rw e (take-min (suc k) r (drop n whole) (length_remaining plan rows n r e))
  ]

  chunked_next-rows :
      (n : ℕ) (row : Row) (rest : List Row) (log : QueryLog)
      → n ≤ length whole
      → drop n whole ≡ row ∷ rest
      → next (record { consumed = n; done = false }) log ≡ (
        some (ok (row ∷ take k rest)),
        record { consumed = n + length (row ∷ take k rest); done = stops n (row ∷ take k rest) },
        logged n log,
      )
  unfolding chunked_next chunk_fetch chunk_rows
  chunked_next-rows n row rest log h e = elim (Bool-cases (is_zero (remaining_limit plan n))) [
    | inl z ↦ absurd (let c = sym (rest_of_is_zero plan rows n z) ∙ e in cc)
    | inr z ↦ rw (
      chunked_next,
      z,
      answers.get,
      chunk_fetch,
      query_all-page db plan rows (suc k) answers small (limit_at n) n h (limit_at_most n),
      chunk_is_full n,
      e,
    )
  ]

  chunked_next-end :
      (n : ℕ) (log : QueryLog)
      → n ≤ length whole
      → drop n whole ≡ []
      → (c : Cursor) × (log' : QueryLog) × (next (record { consumed = n; done = false }) log
          ≡ (none, c, log'))
  unfolding chunked_next chunk_fetch chunk_rows finished
  chunked_next-end n log h e = elim (Bool-cases (is_zero (remaining_limit plan n))) [
    | inl z ↦ (record { consumed = n; done = true }, log, rw (chunked_next, z))
    | inr z ↦ (
      record { consumed = n; done = true },
      logged n log,
      rw (
        chunked_next,
        z,
        answers.get,
        chunk_fetch,
        query_all-page db plan rows (suc k) answers small (limit_at n) n h (limit_at_most n),
        chunk_is_full n,
        e,
      ),
    )
  ]

  after_chunk :
      (n : ℕ) (row : Row) (rest : List Row)
      → drop n whole ≡ row ∷ rest
      → drop (n + length (row ∷ take k rest)) whole ≡ drop k rest
  after_chunk n row rest e =
      sym (drop-drop (length (row ∷ take k rest)) n whole)
      ∙ ap (drop (length (row ∷ take k rest))) e
      ∙ drop-length-take k rest

  -- Where the iterator stops after a chunk, there is nothing behind it.
  stops-end :
      (n : ℕ) (row : Row) (rest : List Row)
      → drop n whole ≡ row ∷ rest
      → stops n (row ∷ take k rest) ≡ true
      → drop k rest ≡ []
  stops-end n row rest e s = elim (Bool-cases (ltb (length (row ∷ take k rest)) (limit_at n))) [
    | inl short ↦
        let below : length (row ∷ take k rest) < limit_at n = ground arith in
        nil_of_length (drop k rest)
          (omega (arith, limit_at_most n, length-drop k rest, length-take k rest))
    | inr full ↦
        let z : is_zero (remaining_limit plan (n + length (row ∷ take k rest))) ≡ true =
          ground arith in
        sym (after_chunk n row rest e) ∙ rest_of_is_zero plan rows _ z
  ]

  collect_from :
      (fuel n : ℕ) (done : Bool) (rest : List Row) (log : QueryLog)
      → n ≤ length whole
      → drop n whole ≡ rest
      → (done ≡ true → rest ≡ [])
      → length rest < fuel
      → collect next fuel (record { consumed = n; done = done }) log
        ≡ some (map ok (chunks fuel (suc k) rest))
  unfolding collect chunks
  collect_from zero n done rest log h e d f = absurd (omega arith)
  collect_from (suc fuel) n true [] log h e d f = unfold chunked_next in refl
  collect_from (suc fuel) n true (row ∷ rest) log h e d f = absurd (let c = d refl in cc)
  collect_from (suc fuel) n false [] log h e d f =
      let (c, log', step) = chunked_next-end n log h e in collect-end next fuel step
  collect_from (suc fuel) n false (row ∷ rest) log h e d f =
      collect-item next fuel (chunked_next-rows n row rest log h e)
      ∙ ap (prepend (ok (row ∷ take k rest))) (
          collect_from fuel (n + length (row ∷ take k rest)) (stops n (row ∷ take k rest))
            (drop k rest) (logged n log)
            (omega (arith, length-drop n whole, ap length e, length-take k rest))
            (after_chunk n row rest e) (stops-end n row rest e) (omega (arith, length-drop k rest)))

-- Over a database that answers by the windows of a list of rows, with no offset beyond `usize`, and
-- for a chunk size above 0, a chunked iteration ends without an error on fuel above the number of the
-- rows. Its chunks are the rows of the query's window in order, and each has a row and at most as
-- many as the chunk size.
pub chunked_collects :
    {S V Row : Type 0} (render : V → Text) (db : Database S V Row) (plan : QueryPlan V)
    (rows : List Row) (chunk_size fuel : ℕ) (log : QueryLog)
    → Answers db plan rows chunk_size
    → plan.offset + length rows ≤ usize_max
    → 0 < chunk_size
    → length (plan_rows plan rows) < fuel
    → (cs : List (List Row)) × (collect (chunked_next render db plan chunk_size) fuel start log
        ≡ some (map ok cs))
      × (flatten cs ≡ plan_rows plan rows)
      × All (λ c. (0 < length c) × (length c ≤ chunk_size)) cs
chunked_collects render db plan rows zero fuel log answers small positive f = absurd (omega arith)
chunked_collects render db plan rows (suc k) fuel log answers small positive f = (
  chunks fuel (suc k) (plan_rows plan rows),
  collect_from render db plan rows k answers small fuel 0 false (plan_rows plan rows) log
      (omega arith) refl (λ e. absurd (ground arith)) f,
  flatten-chunks fuel k (plan_rows plan rows) f,
  chunks-All fuel k (plan_rows plan rows),
)
