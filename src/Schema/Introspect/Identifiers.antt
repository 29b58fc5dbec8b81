-- ===== src/Schema/Introspect/Identifiers.antt =====
-- Whether a stored statement mentions a table, and the other functions of
-- src/schema/introspect.rs on names.
use seekwel.Prelude.{
  ℕ, ◌≡◌, refl, sym, ap, ◌∙◌, ◌↔◌, ◌⊎◌, inl, inr, Bool, true, false, not, ◌&&◌, ◌||◌, [], ◌∷◌, ◌++◌,
  map, append-nil, append_assoc, Text, codes, ◌==◌, eq_iff, all, eqb, leb, Bool-cases,
  if◌then◌else◌, arith,
}
use seekwel.Prelude.Search.{to_ascii_lowercase, starts_with, contains, Occurs, contains_iff}

unfoldable pub is_managed_index_name : Text → Bool
is_managed_index_name name = starts_with (codes "seekwel_idx_") name

-- `ch.is_ascii_alphanumeric() || ch == '_'`
unfoldable pub is_word : ℕ → Bool
is_word c =
    (leb 48 c && leb c 57) || ((leb 65 c && leb c 90) || ((leb 97 c && leb c 122) || eqb c 95))

-- The loop over the characters, with the token so far.
unfoldable pub scan : Text → Text → Text → Bool
scan identifier token [] = token == identifier
scan identifier token (c ∷ s) =
    let longer = scan identifier (token ++ c ∷ []) s in
    let next = scan identifier [] s in if is_word c then longer else (token == identifier) || next

-- `identifier` between two other texts.
abbrev pub enclosed : Text → Text → Text → Text
enclosed left right identifier = left ++ (identifier ++ right)

unfoldable pub sql_references_identifier : Text → Text → Bool
unfolding scan
sql_references_identifier sql name =
    let identifier = map to_ascii_lowercase name in
    let sql_lower = map to_ascii_lowercase sql in
    if contains (enclosed (codes "\"") (codes "\"") identifier) sql_lower
      || (contains (enclosed (codes "[") (codes "]") identifier) sql_lower
          || contains (enclosed (codes "`") (codes "`") identifier) sql_lower)
    then true
    else scan identifier [] sql_lower

-- The text does not end in the middle of a word.
unfoldable pub ends_bare : Text → Bool
ends_bare [] = true
ends_bare (c ∷ []) = not (is_word c)
ends_bare (c ∷ d ∷ s) = ends_bare (d ∷ s)

unfoldable pub starts_bare : Text → Bool
starts_bare [] = true
starts_bare (c ∷ s) = not (is_word c)

-- A whole word of the second text is the first one.
abbrev pub WholeWord : Text → Text → Type 0
WholeWord w s =
    (before : Text) × (after : Text) × (s ≡ before ++ (w ++ after))
    × (ends_bare before ≡ true)
    × (starts_bare after ≡ true)
    × (all is_word w ≡ true)

ends_bare-append :
    (t : Text) (c : ℕ) (s : Text)
    → is_word c ≡ false
    → ends_bare s ≡ true
    → ends_bare (t ++ c ∷ s) ≡ true
unfolding ends_bare
ends_bare-append [] c [] h k = ground arith
ends_bare-append [] c (d ∷ s) h k = k
ends_bare-append (b ∷ []) c s h k = ends_bare-append [] c s h k
ends_bare-append (b ∷ d ∷ t) c s h k = ends_bare-append (d ∷ t) c s h k

all-append :
    (t : Text) (c : ℕ) → all is_word t ≡ true → is_word c ≡ true → all is_word (t ++ c ∷ []) ≡ true
all-append [] c h k = ground arith
all-append (b ∷ t) c h k = ground (arith, all-append t c)

scan-found :
    (w token s : Text) → all is_word token ≡ true → scan w token s ≡ true → WholeWord w (token ++ s)
unfolding scan ends_bare starts_bare
scan-found w token [] words h =
    let e = (eq_iff token w).0 h in ([], [], ap (λ t. t ++ []) e, refl, refl, rw (sym e) words)
scan-found w token (c ∷ s) words h = elim (Bool-cases (is_word c)) [
  | inl inside ↦
      let (before, after, e, l, r, k) =
        scan-found w (token ++ c ∷ []) s (all-append token c words inside) (ground arith) in
      (before, after, sym (append_assoc token (c ∷ []) s) ∙ e, l, r, k)
  | inr outside ↦ elim (Bool-cases (token == w)) [
    | inl same ↦
        let e = (eq_iff token w).0 same in
        ([], c ∷ s, ap (λ t. t ++ c ∷ s) e, refl, ground arith, rw (sym e) words)
    | inr other ↦
        let (before, after, e, l, r, k) = scan-found w [] s refl (ground arith) in
        (
          token ++ c ∷ before,
          after,
          ap (λ t. token ++ c ∷ t) e ∙ sym (append_assoc token (c ∷ before) (w ++ after)),
          ends_bare-append token c before outside l,
          r,
          k,
        )
  ]
]

scan-word :
    (w token v after : Text)
    → token ++ v ≡ w
    → all is_word v ≡ true
    → starts_bare after ≡ true
    → scan w token (v ++ after) ≡ true
unfolding scan starts_bare
scan-word w token [] [] e h k = (eq_iff token w).1 (sym (append-nil token) ∙ e)
scan-word w token [] (c ∷ after) e h k =
    ground (arith, (eq_iff token w).1 (sym (append-nil token) ∙ e))
scan-word w token (c ∷ v) after e h k =
    ground (arith, scan-word w (token ++ c ∷ []) v after (append_assoc token (c ∷ []) v ∙ e))

module _ (w after : Text) (words : all is_word w ≡ true) (bare : starts_bare after ≡ true) where
  scan-behind :
      (token : Text) (c : ℕ) (before : Text)
      → ends_bare (c ∷ before) ≡ true
      → scan w token (c ∷ before ++ (w ++ after)) ≡ true
  unfolding scan ends_bare
  scan-behind token c [] h = ground (arith, scan-word w [] w after refl words bare)
  scan-behind token c (d ∷ before) h =
      ground (arith, scan-behind (token ++ c ∷ []) d before h, scan-behind [] d before h)

  scan-append :
      (before : Text) → ends_bare before ≡ true → scan w [] (before ++ (w ++ after)) ≡ true
  scan-append [] h = scan-word w [] w after refl words bare
  scan-append (c ∷ before) h = scan-behind [] c before h

scan_iff : (w s : Text) → (scan w [] s ≡ true) ↔ WholeWord w s
scan_iff w s = (
  scan-found w [] s refl,
  λ found.
      let (before, after, e, l, r, k) = found in
      ap (scan w []) e ∙ scan-append w after k r before l,
)

-- The name stands in the text between double quotes, brackets or backticks, or as a whole word.
abbrev pub Mentions : Text → Text → Type 0
Mentions s w =
    Occurs (enclosed (codes "\"") (codes "\"") w) s
    ⊎ (Occurs (enclosed (codes "[") (codes "]") w) s
        ⊎ (Occurs (enclosed (codes "`") (codes "`") w) s ⊎ WholeWord w s))

-- A statement references a name exactly if, in lower case, it has the name between double quotes,
-- brackets or backticks, or as a whole word of letters, digits and underscores.
pub sql_references_identifier_iff :
    (sql name : Text)
    → (sql_references_identifier sql name ≡ true)
      ↔ Mentions (map to_ascii_lowercase sql) (map to_ascii_lowercase name)
unfolding sql_references_identifier
sql_references_identifier_iff sql name =
    let w = map to_ascii_lowercase name in
    let s = map to_ascii_lowercase sql in
    let quoted = contains_iff (enclosed (codes "\"") (codes "\"") w) s in
    let bracketed = contains_iff (enclosed (codes "[") (codes "]") w) s in
    let ticked = contains_iff (enclosed (codes "`") (codes "`") w) s in
    let whole = scan_iff w s in ground (arith, quoted, bracketed, ticked, whole)
