-- ===== src/Sql/Placeholders/Statements.antt =====
-- Lists of parameters in a statement.
use seekwel.Prelude.{
  ℕ, zero, suc, ◌+◌, ◌≡◌, refl, List, [], ◌∷◌, ◌++◌, Text, codes, join, Lacks, arith,
}
use seekwel.Sql.Render.{placeholder_list, placeholders}
use seekwel.Sql.Placeholders.{
  bound_parameters, is_digit, Reads, Reads-plain, Reads-of_Lacks, Reads-append, Reads-placeholder,
  numbers_from, bound_parameters-plain,
}

-- A name with no question mark in it.
abbrev pub IsPlain : Text → Type 0
IsPlain = Lacks b'?'

-- Each text has one parameter, of the number at its place.
abbrev pub OneEach : List Text → List ℕ → Type 0
OneEach [] [] = Unit
OneEach (x ∷ xs) (n ∷ ns) = Reads x (n ∷ []) × OneEach xs ns
OneEach _ _ = ⊥

pub join-Reads : (xs : List Text) (ns : List ℕ) → OneEach xs ns → Reads (join (codes ", ") xs) ns
unfolding join
join-Reads [] [] h = Reads-of_Lacks [] tt
join-Reads [] (n ∷ ns) h = absurd h
join-Reads (x ∷ xs) [] h = absurd h
join-Reads (x ∷ []) (n ∷ []) h = h.0
join-Reads (x ∷ []) (n ∷ m ∷ ns) h = absurd h.1
join-Reads (x ∷ y ∷ xs) (n ∷ ns) h =
    Reads-append x b',' (32 ∷ join (codes ", ") (y ∷ xs)) (n ∷ []) ns (unfold is_digit in refl) h.0
      (Reads-plain (codes ", ") (join (codes ", ") (y ∷ xs)) ns (omega arith)
        (join-Reads (y ∷ xs) ns h.1))

pub placeholder_list-OneEach :
    (count start : ℕ) → OneEach (placeholder_list count start) (numbers_from count start)
unfolding placeholder_list
placeholder_list-OneEach zero start = tt
placeholder_list-OneEach (suc count) start =
    (Reads-placeholder start, placeholder_list-OneEach count (start + 1))

-- A text without question marks, at the head of a text that is read.
pub skip : (a t : Text) → IsPlain a → bound_parameters (a ++ t) ≡ bound_parameters t
skip a t h = bound_parameters-plain a t h

pub placeholders-Reads :
    (count start : ℕ) → Reads (placeholders count start) (numbers_from count start)
unfolding placeholders
placeholders-Reads count start =
    join-Reads (placeholder_list count start) (numbers_from count start)
      (placeholder_list-OneEach count start)
