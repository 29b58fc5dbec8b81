-- ===== src/Connection/Log.antt =====
-- The log of recent queries in src/connection.rs.
pub mod Laws
use seekwel.Prelude.{
  ℕ, ◌+◌, Bool, true, false, ◌&&◌, ◌||◌, List, [], ◌∷◌, ◌++◌, Text, codes, join, leb, ltb, eqb,
  length, drop, is_empty, if◌then◌else◌,
}
use seekwel.Prelude.Decimal.{decimal}

-- `char::is_whitespace`.
unfoldable pub is_whitespace : ℕ → Bool
is_whitespace c =
    (leb 9 c && leb c 13)
    || (eqb c 32
        || (eqb c 0x85
            || (eqb c 0xa0
                || (eqb c 0x1680
                    || ((leb 0x2000 c && leb c 0x200a)
                        || (eqb c 0x2028
                            || (eqb c 0x2029
                                || (eqb c 0x202f || (eqb c 0x205f || eqb c 0x3000)))))))))

-- A word that is not empty goes before the others.
push_word : Text → List Text → List Text
push_word [] words = words
push_word (c ∷ word) words = (c ∷ word) ∷ words

-- The text up to the next white space, and the words behind it.
words_from : Text → Text × List Text
unfolding push_word
words_from [] = ([], [])
words_from (c ∷ s) =
    let (word, words) = words_from s in
    if is_whitespace c then ([], push_word word words) else (c ∷ word, words)

-- `text.split_whitespace()`
unfoldable pub split_whitespace : Text → List Text
unfolding words_from
split_whitespace s = push_word (words_from s).0 (words_from s).1

unfoldable pub normalize_query : Text → Text
unfolding split_whitespace
normalize_query query = join (codes " ") (split_whitespace query)

-- `VecDeque<String>`, the oldest entry first.
abbrev pub QueryLog : Type 0
QueryLog = List Text

unfoldable pub push_query_log : Text → QueryLog → QueryLog
push_query_log entry log =
    if is_empty entry
    then log
    else (if leb 100 (length log) then drop 1 log else log) ++ (entry ∷ [])

unfoldable pub record_query : Text → QueryLog → QueryLog
record_query query = push_query_log (normalize_query query)

module _ {V : Type 0} (render : V → Text) where
  -- `?1=value`, `?2=value` and so on, from `?{index}`.
  rendered_params : ℕ → List V → List Text
  rendered_params index [] = []
  rendered_params index (v ∷ vs) =
      (codes "?" ++ (decimal index ++ (codes "=" ++ render v))) ∷ rendered_params (index + 1) vs

  unfoldable pub record_query_with_params : Text → List V → QueryLog → QueryLog
  unfolding rendered_params
  record_query_with_params query params log =
      let normalized = normalize_query query in
      if is_empty normalized
      then log
      else if is_empty params
      then push_query_log normalized log
      else push_query_log
          (normalized
            ++ (codes " -- [" ++ (join (codes ", ") (rendered_params 1 params) ++ codes "]")))
          log
