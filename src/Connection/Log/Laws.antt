-- ===== src/Connection/Log/Laws.antt =====
-- The log holds the last hundred entries, and a query is normalized to its words.
use seekwel.Prelude.{
  ℕ, ◌≡◌, ◌≤◌, ◌-◌, ◌+◌, refl, sym, ap, ◌∙◌, true, false, List, [], ◌∷◌, ◌++◌, Text, codes, join,
  map, leb, length, drop, is_empty, length-append, length-drop, drop-drop, arith, if◌then◌else◌,
  All, ◌≢◌, zero, suc, append_assoc, append-nil, Bool-cases, inl, inr,
}
use seekwel.Connection.Log.{
  is_whitespace, push_word, words_from, split_whitespace, normalize_query, QueryLog, push_query_log,
}

-- Several entries are pushed one after another.
pub push_all : List Text → QueryLog → QueryLog
push_all [] log = log
push_all (e ∷ es) log = push_all es (push_query_log e log)

-- The entries that are not empty.
pub kept : List Text → List Text
kept [] = []
kept (e ∷ es) = let rest = kept es in if is_empty e then rest else e ∷ rest

-- The last hundred of a list.
abbrev pub last_hundred : List Text → List Text
last_hundred l = drop (length l - 100) l

drop-append :
    {A : Type 0} (n : ℕ) (xs ys : List A) → n ≤ length xs → drop n (xs ++ ys) ≡ drop n xs ++ ys
drop-append zero xs ys h = refl
drop-append (suc n) [] ys h = absurd (omega arith)
drop-append (suc n) (x ∷ xs) ys h = drop-append n xs ys (omega arith)

length-last_hundred : (l : List Text) → length (last_hundred l) ≤ 100
length-last_hundred l = omega (arith, length-drop (length l - 100) l)

appended :
    (l : List Text) (e : Text)
    → last_hundred (l ++ (e ∷ [])) ≡ drop (length l + 1 - 100) l ++ (e ∷ [])
appended l e =
    ap (λ k. drop (k - 100) (l ++ (e ∷ []))) (length-append l (e ∷ []))
    ∙ drop-append (length l + 1 - 100) l (e ∷ []) (omega arith)

-- Pushing onto the last hundred entries gives the last hundred entries.
push_query_log-last_hundred :
    (e : Text) (l : List Text)
    → push_query_log e (last_hundred l) ≡ last_hundred (l ++ (if is_empty e then [] else e ∷ []))
unfolding push_query_log
push_query_log-last_hundred [] l = ap last_hundred (sym (append-nil l))
push_query_log-last_hundred (c ∷ e) l = elim (Bool-cases (leb 100 (length (last_hundred l)))) [
  | inl full ↦ rw full (ap (λ t. t ++ ((c ∷ e) ∷ [])) (shifted full) ∙ sym (appended l (c ∷ e)))
  | inr room ↦
      rw room (ap (λ k. drop k l ++ ((c ∷ e) ∷ [])) (none_dropped room) ∙ sym (appended l (c ∷ e)))
]
  where
    shifted :
        leb 100 (length (last_hundred l)) ≡ true
        → drop 1 (last_hundred l) ≡ drop (length l + 1 - 100) l
    shifted full =
        drop-drop 1 (length l - 100) l
        ∙ ap (λ k. drop k l) (ground (arith, length-drop (length l - 100) l))

    none_dropped : leb 100 (length (last_hundred l)) ≡ false → length l - 100 ≡ length l + 1 - 100
    none_dropped room = ground (arith, length-drop (length l - 100) l)

push_all-last_hundred :
    (es l : List Text) → push_all es (last_hundred l) ≡ last_hundred (l ++ kept es)
unfolding push_all kept
push_all-last_hundred [] l = ap last_hundred (sym (append-nil l))
push_all-last_hundred ([] ∷ es) l =
    ap (push_all es) (push_query_log-last_hundred [] l ∙ ap last_hundred (append-nil l))
    ∙ push_all-last_hundred es l
push_all-last_hundred ((c ∷ e) ∷ es) l =
    ap (push_all es) (push_query_log-last_hundred (c ∷ e) l)
    ∙ push_all-last_hundred es (l ++ ((c ∷ e) ∷ []))
    ∙ ap last_hundred (append_assoc l ((c ∷ e) ∷ []) (kept es))

-- From the empty log, the log after any entries is the last hundred of those that are not empty.
pub push_all_lem : (es : List Text) → push_all es [] ≡ last_hundred (kept es)
push_all_lem es = push_all-last_hundred es []

-- A word: not empty, with no white space.
abbrev pub IsWord : Text → Type 0
IsWord w = (w ≢ []) × All (λ c. is_whitespace c ≡ false) w

-- White space only.
abbrev pub IsBlank : Text → Type 0
IsBlank = All (λ c. is_whitespace c ≡ true)

-- Words, each with what stands behind it.
pub spaced : List (Text × Text) → Text
spaced [] = []
spaced ((w, gap) ∷ rest) = w ++ (gap ++ spaced rest)

abbrev pub words_of : List (Text × Text) → List Text
words_of = map (λ (p : Text × Text). p.0)

-- Between two words there is white space; behind the last there may be none.
abbrev pub AreSpaced : List (Text × Text) → Type 0
AreSpaced [] = Unit
AreSpaced ((w, gap) ∷ []) = IsWord w × IsBlank gap
AreSpaced ((w, gap) ∷ next ∷ rest) = IsWord w × IsBlank gap × (gap ≢ []) × AreSpaced (next ∷ rest)

words_from-word :
    (w : Text) (s : Text)
    → All (λ c. is_whitespace c ≡ false) w
    → words_from (w ++ s) ≡ (w ++ (words_from s).0, (words_from s).1)
unfolding words_from
words_from-word [] s h = refl
words_from-word (c ∷ w) s h = rw h.0 (rw (words_from-word w s h.1))

push_word_of_IsWord : (w : Text) (ws : List Text) → w ≢ [] → push_word w ws ≡ w ∷ ws
unfolding push_word
push_word_of_IsWord [] ws h = absurd (h refl)
push_word_of_IsWord (c ∷ w) ws h = refl

words_from-blank :
    (c : ℕ) (s : Text) → is_whitespace c ≡ true → words_from (c ∷ s) ≡ ([], split_whitespace s)
unfolding words_from split_whitespace
words_from-blank c s h = rw h refl

split_whitespace-blank :
    (gap s : Text) → IsBlank gap → split_whitespace (gap ++ s) ≡ split_whitespace s
unfolding split_whitespace push_word
split_whitespace-blank [] s h = refl
split_whitespace-blank (c ∷ gap) s h =
    rw (words_from-blank c (gap ++ s) h.0) (split_whitespace-blank gap s h.1)

words_from-gap :
    (gap s : Text) → IsBlank gap → gap ≢ [] → words_from (gap ++ s) ≡ ([], split_whitespace s)
words_from-gap [] s h k = absurd (k refl)
words_from-gap (c ∷ gap) s h k =
    words_from-blank c (gap ++ s) h.0 ∙ ap (λ ws. ([], ws)) (split_whitespace-blank gap s h.1)

words_from-end : (gap : Text) → IsBlank gap → words_from (gap ++ []) ≡ ([], [])
unfolding words_from
words_from-end [] h = refl
words_from-end (c ∷ gap) h =
    words_from-gap (c ∷ gap) [] h (λ e. cc) ∙ (unfold split_whitespace push_word in refl)

-- A word before a text that no further letter of it begins.
split_whitespace-word :
    (w s : Text) (ws : List Text)
    → IsWord w
    → words_from s ≡ ([], ws)
    → split_whitespace (w ++ s) ≡ w ∷ ws
unfolding split_whitespace
split_whitespace-word w s ws h e =
    rw (words_from-word w s h.1) (rw (e, append-nil w) (push_word_of_IsWord w ws h.0))

split_whitespace-spaced :
    (ws : List (Text × Text)) → AreSpaced ws → split_whitespace (spaced ws) ≡ words_of ws
unfolding spaced
split_whitespace-spaced [] h = unfold split_whitespace words_from push_word in refl
split_whitespace-spaced ((w, gap) ∷ []) h =
    split_whitespace-word w (gap ++ []) [] h.0 (words_from-end gap h.1)
split_whitespace-spaced ((w, gap) ∷ next ∷ rest) h =
    split_whitespace-word w (gap ++ spaced (next ∷ rest)) _ h.0
      (words_from-gap gap (spaced (next ∷ rest)) h.1 h.2)
    ∙ ap (◌∷◌ w) (split_whitespace-spaced (next ∷ rest) h.3)

-- A query of words with white space between them, and perhaps before the first and behind the last,
-- is normalized to its words with one blank between two.
pub normalize_query-spaced :
    (before : Text) (ws : List (Text × Text))
    → IsBlank before
    → AreSpaced ws
    → normalize_query (before ++ spaced ws) ≡ join (codes " ") (words_of ws)
unfolding normalize_query
normalize_query-spaced before ws b h =
    ap (join (codes " "))
      (split_whitespace-blank before (spaced ws) b ∙ split_whitespace-spaced ws h)
