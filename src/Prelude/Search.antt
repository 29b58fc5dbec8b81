-- ===== src/Prelude/Search.antt =====
-- `str::starts_with`, `str::contains`, `replace` of one character and the case of ASCII letters.
use Prim.Native.Nat.{ℕ, ◌+◌, ◌-◌}
use mathlib.Core.Path.{◌≡◌, refl, ap, ◌∙◌}
use mathlib.Core.Logic.{◌↔◌, inl, inr}
use mathlib.Core.Bool.{Bool, true, false, ◌&&◌, ◌||◌}
use mathlib.Core.List.{[], ◌∷◌, ◌++◌, map}
use native.Mathlib.Omega.{arith}
use seekwel.Prelude.Tests.{leb, eqb, if◌then◌else◌, Bool-cases}
use seekwel.Prelude.Lists.{is_empty}
use seekwel.Prelude.Strings.{Text, ◌==◌}

unfoldable pub to_ascii_uppercase : ℕ → ℕ
to_ascii_uppercase c = if leb 97 c && leb c 122 then c - 32 else c

unfoldable pub to_ascii_lowercase : ℕ → ℕ
to_ascii_lowercase c = if leb 65 c && leb c 90 then c + 32 else c

unfoldable pub starts_with : Text → Text → Bool
starts_with [] s = true
starts_with (c ∷ p) [] = false
starts_with (c ∷ p) (d ∷ s) = eqb c d && starts_with p s

-- The first argument is the text that is looked for.
unfoldable pub contains : Text → Text → Bool
unfolding starts_with
contains p [] = is_empty p
contains p (d ∷ s) = starts_with p (d ∷ s) || contains p s

unfoldable pub eq_ignore_ascii_case : Text → Text → Bool
eq_ignore_ascii_case a b = map to_ascii_lowercase a == map to_ascii_lowercase b

-- The second text has the first one in it.
abbrev pub Occurs : Text → Text → Type 0
Occurs p s = (before : Text) × (after : Text) × (s ≡ before ++ (p ++ after))

starts_with-found : (p s : Text) → starts_with p s ≡ true → (after : Text) × (s ≡ p ++ after)
unfolding starts_with
starts_with-found [] s h = (s, refl)
starts_with-found (c ∷ p) [] h = cc
starts_with-found (c ∷ p) (d ∷ s) h =
    let (after, e) = starts_with-found p s (ground arith) in (after, ground arith)

starts_with-append : (p after : Text) → starts_with p (p ++ after) ≡ true
unfolding starts_with
starts_with-append [] after = refl
starts_with-append (c ∷ p) after = ground (arith, starts_with-append p after)

contains-found : (p s : Text) → contains p s ≡ true → Occurs p s
unfolding contains
contains-found [] [] h = ([], [], refl)
contains-found (c ∷ p) [] h = cc
contains-found p (d ∷ s) h = elim (Bool-cases (starts_with p (d ∷ s))) [
  | inl e ↦ let (after, q) = starts_with-found p (d ∷ s) e in ([], after, q)
  | inr e ↦
      let (before, after, q) = contains-found p s (ground arith) in
      (d ∷ before, after, ap (◌∷◌ d) q)
]

contains-append : (p before after : Text) → contains p (before ++ (p ++ after)) ≡ true
unfolding contains
contains-append [] [] [] = refl
contains-append [] [] (d ∷ after) = refl
contains-append (c ∷ p) [] after = ground (arith, starts_with-append (c ∷ p) after)
contains-append p (d ∷ before) after = ground (arith, contains-append p before after)

pub contains_iff : (p s : Text) → (contains p s ≡ true) ↔ Occurs p s
contains_iff p s = (
  contains-found p s,
  λ found. let (before, after, e) = found in ap (contains p) e ∙ contains-append p before after,
)
