-- ===== src/Schema/Json/RoundTrip.antt =====
-- A JSON reader gets back what `json_escape` wrote: the reading of one string behind its opening
-- quote, up to its closing one, and what is behind it.
use seekwel.Prelude.{
  ℕ, zero, suc, ◌<◌, ◌^◌, ◌≡◌, refl, ap, ◌∙◌, ◌||◌, ◌&&◌, false, Option, none, some, [], ◌∷◌, ◌++◌,
  append_assoc, Text, length, eqb, ltb, leb, if◌then◌else◌, Bool-cases, inl, inr, arith,
}
use seekwel.Prelude.Decimal.{hex, unhex, unhex-hex, length-hex}
use seekwel.Schema.Json.{is_control, escape_char, json_escape}

unescaped : ℕ → ℕ
unescaped c = if eqb c 110 then 10 else if eqb c 114 then 13 else if eqb c 116 then 9 else c

unicode : Text → Option (ℕ × Text)
unicode (a ∷ b ∷ c ∷ d ∷ s) = some (unhex (a ∷ b ∷ c ∷ d ∷ []), s)
unicode _ = none

escaped : Text → Option (ℕ × Text)
escaped [] = none
escaped (c ∷ s) = if eqb c 117 then unicode s else some (unescaped c, s)

-- The first character of the rest of a string, and what is behind it.
next_char : Text → Option (ℕ × Text)
next_char [] = none
next_char (c ∷ s) = if eqb c 92 then escaped s else some (c, s)

abbrev cons_char : ℕ → Option (Text × Text) → Option (Text × Text)
cons_char c none = none
cons_char c (some (s, rest)) = some (c ∷ s, rest)

pub read_json_string : ℕ → Text → Option (Text × Text)
read_json_string zero t = none
read_json_string (suc fuel) [] = none
read_json_string (suc fuel) (c ∷ t) = if eqb c 34 then some ([], t) else elim (next_char (c ∷ t)) [
  | none ↦ none
  | some (d, t') ↦ cons_char d (read_json_string fuel t')
]

read-plain :
    (c fuel : ℕ) (rest : Text)
    → eqb c 34 ≡ false
    → eqb c 92 ≡ false
    → read_json_string (suc fuel) (c ∷ rest) ≡ cons_char c (read_json_string fuel rest)
unfolding read_json_string next_char
read-plain c fuel rest q b = rw (q, b)

read-short :
    (k fuel : ℕ) (rest : Text)
    → eqb k 117 ≡ false
    → read_json_string (suc fuel) (92 ∷ k ∷ rest)
      ≡ cons_char (unescaped k) (read_json_string fuel rest)
unfolding read_json_string next_char escaped
read-short k fuel rest h = rw h

unicode-append : (l rest : Text) → length l ≡ 4 → unicode (l ++ rest) ≡ some (unhex l, rest)
unfolding unicode
unicode-append (a ∷ b ∷ c ∷ d ∷ []) rest h = refl
unicode-append [] rest h = absurd (omega arith)
unicode-append (a ∷ []) rest h = absurd (omega arith)
unicode-append (a ∷ b ∷ []) rest h = absurd (omega arith)
unicode-append (a ∷ b ∷ c ∷ []) rest h = absurd (omega arith)
unicode-append (a ∷ b ∷ c ∷ d ∷ e ∷ l) rest h = absurd (omega arith)

read-unicode :
    (c fuel : ℕ) (rest : Text)
    → c < 16 ^ 4
    → read_json_string (suc fuel) (92 ∷ 117 ∷ (hex 4 c ++ rest))
      ≡ cons_char c (read_json_string fuel rest)
unfolding read_json_string next_char escaped
read-unicode c fuel rest h = rw (unicode-append (hex 4 c) rest (length-hex 4 c), unhex-hex 4 c h)

-- A short escape, for the character that it stands for.
read-short_of :
    (c k fuel : ℕ) (rest : Text)
    → eqb k 117 ≡ false
    → unescaped k ≡ c
    → read_json_string (suc fuel) (92 ∷ k ∷ rest) ≡ cons_char c (read_json_string fuel rest)
read-short_of c k fuel rest h e =
    read-short k fuel rest h ∙ ap (λ d. cons_char d (read_json_string fuel rest)) e

read-escape_char :
    (c fuel : ℕ) (rest : Text)
    → read_json_string (suc fuel) (escape_char c ++ rest) ≡ cons_char c (read_json_string fuel rest)
unfolding escape_char is_control unescaped
read-escape_char c fuel rest = elim (Bool-cases (eqb c 34)) [
  | inl e ↦ rw e (read-short_of c 34 fuel rest refl (ground arith))
  | inr q ↦ elim (Bool-cases (eqb c 92)) [
    | inl e ↦ rw (q, e) (read-short_of c 92 fuel rest refl (ground arith))
    | inr b ↦ elim (Bool-cases (eqb c 10)) [
      | inl e ↦ rw (q, b, e) (read-short_of c 110 fuel rest refl (ground arith))
      | inr n ↦ elim (Bool-cases (eqb c 13)) [
        | inl e ↦ rw (q, b, n, e) (read-short_of c 114 fuel rest refl (ground arith))
        | inr r ↦ elim (Bool-cases (eqb c 9)) [
          | inl e ↦ rw (q, b, n, r, e) (read-short_of c 116 fuel rest refl (ground arith))
          | inr t ↦ elim (Bool-cases (ltb c 32 || leb 127 c && leb c 159)) [
            | inl e ↦ rw (q, b, n, r, t, e) (read-unicode c fuel rest (ground arith))
            | inr e ↦ rw (q, b, n, r, t, e) (read-plain c fuel rest q b)
          ]
        ]
      ]
    ]
  ]
]

-- Behind an opening quote, the escaped text and a closing quote read as the text, and the reader
-- stops at that quote, on fuel above the length of the text.
pub read_json_string-json_escape :
    (s rest : Text) (fuel : ℕ)
    → length s < fuel
    → read_json_string fuel (json_escape s ++ 34 ∷ rest) ≡ some (s, rest)
unfolding json_escape
read_json_string-json_escape s rest zero h = elim h [ ]
read_json_string-json_escape [] rest (suc fuel) h = unfold read_json_string in refl
read_json_string-json_escape (c ∷ s) rest (suc fuel) h =
    ap (read_json_string (suc fuel)) (append_assoc (escape_char c) (json_escape s) (34 ∷ rest))
    ∙ read-escape_char c fuel (json_escape s ++ 34 ∷ rest)
    ∙ ap (cons_char c) (read_json_string-json_escape s rest fuel (omega arith))
