-- ===== src/Prelude/Strings.antt =====
-- Text as a list of code points, and the functions of `str` that the source calls on it.
use Prim.Native.Nat.{ℕ, compare, Ordering}
use Prim.Native.Char.{code}
use Prim.Native.String.{String}
use mathlib.Core.Path.{◌≡◌, refl, ap, ◌∙◌}
use mathlib.Core.Logic.{◌≢◌, ◌↔◌}
use mathlib.Core.Bool.{Bool, true, false, ◌&&◌}
use mathlib.Core.List.{List, [], ◌∷◌, ◌++◌}
use native.Mathlib.Omega.{arith}
use seekwel.Prelude.Tests.{eqb, if◌then◌else◌}
use seekwel.Prelude.Lists.{All, All-append}

abbrev pub Text : Type 0
Text = List ℕ

-- The code points of a literal.
abbrev pub codes : String → Text
codes String.[] = []
codes (String.◌∷◌ c s) = code c ∷ codes s

infix 50 ◌==◌
unfoldable pub ◌==◌ : Text → Text → Bool
[] == [] = true
(x ∷ xs) == (y ∷ ys) = eqb x y && xs == ys
_ == _ = false

pub eq_iff : (a b : Text) → ((a == b) ≡ true) ↔ (a ≡ b)
unfolding ◌==◌
eq_iff [] [] = ground arith
eq_iff [] (y ∷ ys) = ground arith
eq_iff (x ∷ xs) [] = ground arith
eq_iff (x ∷ xs) (y ∷ ys) = ground (arith, eq_iff xs ys)

pub eq_refl : (a : Text) → (a == a) ≡ true
eq_refl a = (eq_iff a a).1 refl

-- The order of `str`: byte by byte in UTF-8, which is the order of the code points.
unfoldable pub le : Text → Text → Bool
le [] ys = true
le (x ∷ xs) [] = false
le (x ∷ xs) (y ∷ ys) = elim (compare x y) [
  | Ordering.lt ↦ true
  | Ordering.eq ↦ le xs ys
  | Ordering.gt ↦ false
]

pub le_refl : (a : Text) → le a a ≡ true
unfolding le
le_refl [] = refl
le_refl (x ∷ xs) = ground (arith, le_refl xs)

pub le_total : (a b : Text) → le a b ≡ false → le b a ≡ true
unfolding le
le_total [] b h = ground arith
le_total (x ∷ xs) [] h = refl
le_total (x ∷ xs) (y ∷ ys) h = ground (arith, le_total xs ys)

pub le_antisymm : (a b : Text) → le a b ≡ true → le b a ≡ true → a ≡ b
unfolding le
le_antisymm [] [] h k = refl
le_antisymm [] (y ∷ ys) h k = ground arith
le_antisymm (x ∷ xs) [] h k = ground arith
le_antisymm (x ∷ xs) (y ∷ ys) h k = ground (arith, le_antisymm xs ys)

pub le_trans : (a b c : Text) → le a b ≡ true → le b c ≡ true → le a c ≡ true
unfolding le
le_trans [] b c h k = refl
le_trans (x ∷ xs) [] c h k = ground arith
le_trans (x ∷ xs) (y ∷ ys) [] h k = ground arith
le_trans (x ∷ xs) (y ∷ ys) (z ∷ zs) h k = ground (arith, le_trans xs ys zs)

-- `slice.join(sep)`.
unfoldable pub join : Text → List Text → Text
join sep [] = []
join sep (x ∷ []) = x
join sep (x ∷ y ∷ rest) = x ++ (sep ++ join sep (y ∷ rest))

abbrev add_to_first : ℕ → List Text → List Text
add_to_first c [] = (c ∷ []) ∷ []
add_to_first c (l ∷ ls) = (c ∷ l) ∷ ls

-- `text.split(c)`: always one piece at least.
unfoldable pub split : ℕ → Text → List Text
split c [] = [] ∷ []
split c (x ∷ xs) = let rest = split c xs in if eqb x c then [] ∷ rest else add_to_first x rest

abbrev starts_line_feed : Text → Bool
starts_line_feed [] = false
starts_line_feed (c ∷ s) = eqb c 10

-- `text.lines()`: pieces that end in a line feed, less it and one carriage return before it; the
-- last piece may lack the line feed.
unfoldable pub lines : Text → List Text
lines [] = []
lines (c ∷ s) =
    let rest = lines s in
    if eqb c 10
    then [] ∷ rest
    else if eqb c 13 && starts_line_feed s
    then rest
    else add_to_first c rest

-- The code point `c` is not in a text.
abbrev pub Lacks : ℕ → Text → Type 0
Lacks c = All (λ x. x ≢ c)

pub split_piece : (c : ℕ) (a : Text) → Lacks c a → split c a ≡ a ∷ []
unfolding split
split_piece c [] h = refl
split_piece c (x ∷ a) h = ground (arith, split_piece c a)

pub split_first : (c : ℕ) (a b : Text) → Lacks c a → split c (a ++ c ∷ b) ≡ a ∷ split c b
unfolding split
split_first c [] b h = ground arith
split_first c (x ∷ a) b h = ground (arith, split_first c a b)

-- Splitting undoes joining by a separator that no piece has.
pub split-join :
    (c : ℕ) (x : Text) (xs : List Text)
    → All (Lacks c) (x ∷ xs)
    → split c (join (c ∷ []) (x ∷ xs)) ≡ x ∷ xs
unfolding join
split-join c x [] h = split_piece c x h.0
split-join c x (y ∷ rest) h =
    split_first c x (join (c ∷ []) (y ∷ rest)) h.0 ∙ ap (◌∷◌ x) (split-join c y rest h.1)

-- The first line of a text.
pub lines-line : (a b : Text) → Lacks 10 a → Lacks 13 a → lines (a ++ 10 ∷ b) ≡ a ∷ lines b
unfolding lines
lines-line [] b h k = refl
lines-line (x ∷ a) b h k = ground (arith, lines-line a b)

pub Lacks-append : (c : ℕ) (a b : Text) → Lacks c a → Lacks c b → Lacks c (a ++ b)
Lacks-append c a b = All-append (λ x. x ≢ c) a b

pub Lacks-join :
    (c : ℕ) (sep : Text) (xs : List Text) → Lacks c sep → All (Lacks c) xs → Lacks c (join sep xs)
unfolding join
Lacks-join c sep [] hs h = tt
Lacks-join c sep (x ∷ []) hs h = h.0
Lacks-join c sep (x ∷ y ∷ rest) hs h =
    Lacks-append c x (sep ++ join sep (y ∷ rest)) h.0
      (Lacks-append c sep (join sep (y ∷ rest)) hs (Lacks-join c sep (y ∷ rest) hs h.1))
