-- ===== src/Sql/Placeholders.antt =====
-- The parameters that the text of a statement asks for: a reading of `?1`, `?2` and so on that
-- knows nothing of how the text was made.
pub mod Statements
pub mod Assigned
pub mod Inserted
use seekwel.Prelude.{
  ℕ, zero, suc, ◌+◌, ◌-◌, ◌*◌, ◌≤◌, ◌<◌, ◌≡◌, ◌≢◌, refl, sym, ap, subst, ◌∙◌, Bool, true, false,
  ◌&&◌, List, [], ◌∷◌, ◌++◌, Text, leb, ltb, append-nil, eqb, if◌then◌else◌, Lacks, All, arith,
  append_assoc,
}
use seekwel.Prelude.Decimal.{
  decimal, undecimal, undecimal_from, undecimal-decimal, decimal_are_digits,
}
use seekwel.Sql.Render.{placeholder}

unfoldable pub is_digit : ℕ → Bool
is_digit c = leb 48 c && ltb c 58

-- Between parameters, or in one with the value of its digits so far.
pub data Mode : Type 0 where
  outside : Mode
  inside : ℕ → Mode

abbrev pub after : ℕ → Mode
after c = if eqb c b'?' then inside 0 else outside

scan : Mode → Text → List ℕ
scan outside [] = []
scan (inside v) [] = v ∷ []
scan outside (c ∷ s) = scan (after c) s
scan (inside v) (c ∷ s) =
    let more = scan (inside (v * 10 + (c - 48))) s in
    let done = v ∷ scan (after c) s in if is_digit c then more else done

-- The numbers of the parameters of a text, from left to right.
unfoldable pub bound_parameters : Text → List ℕ
unfolding scan is_digit
bound_parameters = scan outside

-- A text that no digit begins.
abbrev pub Ends : Text → Type 0
Ends [] = Unit
Ends (c ∷ s) = is_digit c ≡ false

-- Whatever follows it, less a digit, `t` has the parameters `l`.
abbrev pub Reads : Text → List ℕ → Type 0
Reads t l = (b : Text) → Ends b → bound_parameters (t ++ b) ≡ l ++ bound_parameters b

pub Reads-bound_parameters : (t : Text) (l : List ℕ) → Reads t l → bound_parameters t ≡ l
unfolding bound_parameters
Reads-bound_parameters t l h = ap bound_parameters (sym (append-nil t)) ∙ h [] tt ∙ append-nil l

scan-plain : (a b : Text) → Lacks b'?' a → scan outside (a ++ b) ≡ scan outside b
unfolding scan
scan-plain [] b h = refl
scan-plain (c ∷ a) b h = ground (arith, scan-plain a b h.1)

pub bound_parameters-plain :
    (a b : Text) → Lacks b'?' a → bound_parameters (a ++ b) ≡ bound_parameters b
unfolding bound_parameters
bound_parameters-plain a b h = scan-plain a b h

-- A text without question marks before another.
pub Reads-plain : (a t : Text) (l : List ℕ) → Lacks b'?' a → Reads t l → Reads (a ++ t) l
unfolding bound_parameters
Reads-plain a t l h r b e = ap (scan outside) (append_assoc a t b) ∙ scan-plain a (t ++ b) h ∙ r b e

pub Reads-of_Lacks : (a : Text) → Lacks b'?' a → Reads a []
unfolding bound_parameters
Reads-of_Lacks a h b e = scan-plain a b h

-- Two texts, the second not begun by a digit.
pub Reads-append :
    (a : Text) (c : ℕ) (t : Text) (l m : List ℕ)
    → is_digit c ≡ false
    → Reads a l
    → Reads (c ∷ t) m
    → Reads (a ++ (c ∷ t)) (l ++ m)
Reads-append a c t l m d r s b e =
    ap bound_parameters (append_assoc a (c ∷ t) b)
    ∙ r (c ∷ (t ++ b)) d
    ∙ ap (◌++◌ l) (s b e)
    ∙ sym (append_assoc l m (bound_parameters b))

scan-digits :
    (v : ℕ) (d b : Text)
    → All (λ c. (48 ≤ c) × (c < 58)) d
    → scan (inside v) (d ++ b) ≡ scan (inside (undecimal_from v d)) b
unfolding scan undecimal_from is_digit
scan-digits v [] b h = refl
scan-digits v (c ∷ d) b h = ground (arith, scan-digits (v * 10 + (c - 48)) d b h.1)

scan-inside : (v : ℕ) (b : Text) → Ends b → scan (inside v) b ≡ v ∷ scan outside b
unfolding scan
scan-inside v [] e = refl
scan-inside v (c ∷ b) e = rw e

-- One parameter.
pub Reads-placeholder : (n : ℕ) → Reads (placeholder n) (n ∷ [])
unfolding bound_parameters placeholder
Reads-placeholder n b e =
    scan-digits 0 (decimal n) b (decimal_are_digits n)
    ∙ scan-inside (undecimal_from 0 (decimal n)) b e
    ∙ ap (λ k. k ∷ scan outside b) (unfold undecimal in undecimal-decimal n)

-- `start, start + 1, ..`, `count` of them.
abbrev pub numbers_from : ℕ → ℕ → List ℕ
numbers_from zero start = []
numbers_from (suc count) start = start ∷ numbers_from count (start + 1)

-- A text without question marks, not begun by a digit, behind another.
pub Reads-suffix :
    (a : Text) (c : ℕ) (t : Text) (l : List ℕ)
    → is_digit c ≡ false
    → Lacks b'?' (c ∷ t)
    → Reads a l
    → Reads (a ++ (c ∷ t)) l
Reads-suffix a c t l d p r =
    subst (Reads (a ++ (c ∷ t))) (append-nil l)
      (Reads-append a c t l [] d r (Reads-of_Lacks (c ∷ t) p))

pub numbers_from-append :
    (m n start : ℕ)
    → numbers_from m start ++ numbers_from n (start + m) ≡ numbers_from (m + n) start
numbers_from-append zero n start =
    ap (numbers_from n) (let e : start + 0 ≡ start = omega arith in e)
    ∙ ap (λ k. numbers_from k start) (let e : n ≡ 0 + n = omega arith in e)
numbers_from-append (suc m) n start =
    ap (◌∷◌ start) (
      ap (λ k. numbers_from m (start + 1) ++ numbers_from n k)
        (let e : start + suc m ≡ start + 1 + m = omega arith in e)
      ∙ numbers_from-append m n (start + 1))
    ∙ ap (λ k. numbers_from k start) (let e : suc (m + n) ≡ suc m + n = omega arith in e)
