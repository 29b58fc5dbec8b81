-- ===== src/Schema/Apply/Quoting.antt =====
-- A quoted identifier is read as the identifier, whatever its characters are.
use seekwel.Prelude.{
  ℕ, ◌≡◌, ◌≢◌, refl, sym, ap, ◌∙◌, false, [], ◌∷◌, ◌++◌, append_assoc, Option, none, some, Text,
  eqb, if◌then◌else◌, Bool-cases, inl, inr, arith,
}
use seekwel.Schema.Apply.{double_quotes, quote_ident}

abbrev before : ℕ → Option (Text × Text) → Option (Text × Text)
before c none = none
before c (some (s, rest)) = some (c ∷ s, rest)

-- The reading of an identifier behind its opening quote: two quotes are one, and a single one ends
-- it.
read_quoted : Text → Option (Text × Text)
read_quoted [] = none
read_quoted (c ∷ []) = if eqb c 34 then some ([], []) else none
read_quoted (c ∷ d ∷ s) =
    let behind_both = read_quoted s in
    let behind_one = read_quoted (d ∷ s) in
    if eqb c 34
    then (if eqb d 34 then before 34 behind_both else some ([], d ∷ s))
    else before c behind_one

pub read_ident : Text → Option (Text × Text)
read_ident [] = none
read_ident (c ∷ s) = if eqb c 34 then read_quoted s else none

-- A text that no quote begins.
abbrev pub NoQuote : Text → Type 0
NoQuote [] = Unit
NoQuote (c ∷ s) = eqb c 34 ≡ false

read_quoted-end : (rest : Text) → NoQuote rest → read_quoted (34 ∷ rest) ≡ some ([], rest)
unfolding read_quoted
read_quoted-end [] h = refl
read_quoted-end (c ∷ rest) h = rw h

read_quoted-char :
    (c : ℕ) (s : Text) → eqb c 34 ≡ false → s ≢ [] → read_quoted (c ∷ s) ≡ before c (read_quoted s)
unfolding read_quoted
read_quoted-char c [] h n = absurd (n refl)
read_quoted-char c (d ∷ s) h n = rw h

read_quoted-pair : (s : Text) → read_quoted (34 ∷ 34 ∷ s) ≡ before 34 (read_quoted s)
unfolding read_quoted
read_quoted-pair s = refl

ends_with_quote : (a rest : Text) → a ++ 34 ∷ rest ≢ []
ends_with_quote [] rest e = cc
ends_with_quote (c ∷ a) rest e = cc

read_quoted-double_quotes :
    (name rest : Text)
    → NoQuote rest
    → read_quoted (double_quotes name ++ 34 ∷ rest) ≡ some (name, rest)
unfolding double_quotes
read_quoted-double_quotes [] rest h = read_quoted-end rest h
read_quoted-double_quotes (c ∷ name) rest h = elim (Bool-cases (eqb c 34)) [
  | inl q ↦
      let quote : c ≡ 34 = ground arith in
      rw q (
        read_quoted-pair (double_quotes name ++ 34 ∷ rest)
        ∙ rw (read_quoted-double_quotes name rest h) (ap (λ d. some (d ∷ name, rest)) (sym quote)))
  | inr q ↦ rw q (
      read_quoted-char c (double_quotes name ++ 34 ∷ rest) q
        (ends_with_quote (double_quotes name) rest)
      ∙ rw (read_quoted-double_quotes name rest h))
]

-- Read as an identifier, a quoted identifier before a text that no quote begins is that identifier,
-- and that text is left.
pub read_ident-quote_ident :
    (identifier rest : Text)
    → NoQuote rest
    → read_ident (quote_ident identifier ++ rest) ≡ some (identifier, rest)
unfolding read_ident quote_ident
read_ident-quote_ident identifier rest h =
    ap read_quoted (append_assoc (double_quotes identifier) (34 ∷ []) rest)
    ∙ read_quoted-double_quotes identifier rest h
