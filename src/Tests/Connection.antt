-- ===== src/Tests/Connection.antt =====
-- The query log of src/connection.rs.
use seekwel.Prelude.{◌≡◌, refl, [], ◌∷◌, ◌++◌, codes, join}
use seekwel.Connection.Log.{is_whitespace, normalize_query}
use seekwel.Connection.Log.Laws.{
  push_all, kept, last_hundred, push_all_lem, spaced, words_of, normalize_query-spaced,
}

push_all_lem_example :
    push_all (codes "BEGIN" ∷ [] ∷ codes "COMMIT" ∷ []) []
    ≡ last_hundred (kept (codes "BEGIN" ∷ [] ∷ codes "COMMIT" ∷ []))
push_all_lem_example = push_all_lem (codes "BEGIN" ∷ [] ∷ codes "COMMIT" ∷ [])

-- White space before the first word, a line feed between the words, and a tab behind the last.
normalize_query-spaced_example :
    normalize_query
      ((32 ∷ []) ++ spaced ((codes "SELECT", 10 ∷ 32 ∷ []) ∷ (codes "1", 9 ∷ []) ∷ []))
    ≡ join (codes " ") (words_of ((codes "SELECT", 10 ∷ 32 ∷ []) ∷ (codes "1", 9 ∷ []) ∷ []))
unfolding is_whitespace
normalize_query-spaced_example =
    normalize_query-spaced (32 ∷ []) ((codes "SELECT", 10 ∷ 32 ∷ []) ∷ (codes "1", 9 ∷ []) ∷ [])
      (refl, tt)
      (
        ((λ e. cc), (refl, (refl, (refl, (refl, (refl, (refl, tt))))))),
        (refl, (refl, tt)),
        (λ e. cc),
        (((λ e. cc), (refl, tt)), (refl, tt)),
      )
