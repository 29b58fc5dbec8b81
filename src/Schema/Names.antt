-- ===== src/Schema/Names.antt =====
-- Lists sorted by a name, whose neighbours are compared: what `sort_by` and `windows(2)` over a
-- name come to.
use mathlib.Core.List.{Mem, Nodup, Nodup-cons, Nodup-nil, mem-cons, not-mem-nil}
use mathlib.Core.Logic.Or
use mathlib.Core.HLevel.{⊥_prop}
use seekwel.Prelude.{
  ◌≡◌, ◌≢◌, true, List, [], ◌∷◌, Text, le, le_trans, le_antisymm, All, All-imp, ◌⊎◌,
}

-- Each name is below the next.
abbrev pub Ascending : List Text → Type 0
Ascending [] = Unit
Ascending (x ∷ []) = Unit
Ascending (x ∷ y ∷ rest) = (le x y ≡ true) × (x ≢ y) × Ascending (y ∷ rest)

-- Some entry satisfies `P`.
abbrev pub Any : {A : Type 0} → (A → Type 0) → List A → Type 0
Any P [] = ⊥
Any P (x ∷ xs) = P x ⊎ Any P xs

abbrev pub Above : Text → List Text → Type 0
Above x = All (λ y. (le x y ≡ true) × (x ≢ y))

Above-trans : (x y : Text) (l : List Text) → le x y ≡ true → x ≢ y → Above y l → Above x l
Above-trans x y [] h n a = tt
Above-trans x y (z ∷ l) h n a = (
  (le_trans x y z h a.0.0, λ e. n (le_antisymm x y h (subst' e a.0.0))),
  Above-trans x y l h n a.1,
)
  where
    subst' : x ≡ z → le y z ≡ true → le y x ≡ true
    subst' e p = rw e p

-- Everything behind a name is above it.
pub Ascending-Above : (x : Text) (l : List Text) → Ascending (x ∷ l) → Above x l
Ascending-Above x [] h = tt
Ascending-Above x (y ∷ l) h = ((h.0, h.1), Above-trans x y l h.0 h.1 (Ascending-Above y l h.2))

not-mem-Above : (x : Text) (l : List Text) → Above x l → ¬ Mem x l
not-mem-Above x [] a m = not-mem-nil m
not-mem-Above x (y ∷ l) a m =
    Or.elim ⊥_prop (mem-cons.0 m) (λ e. a.0.1 e) (λ n. not-mem-Above x l a.1 n)

pub Ascending-Nodup : (l : List Text) → Ascending l → Nodup l
Ascending-Nodup [] h = Nodup-nil
Ascending-Nodup (x ∷ []) h = Nodup-cons.1 (not-mem-nil, Nodup-nil)
Ascending-Nodup (x ∷ y ∷ l) h =
    Nodup-cons.1
      (not-mem-Above x (y ∷ l) (Ascending-Above x (y ∷ l) h), Ascending-Nodup (y ∷ l) h.2)

-- The names behind the first differ from it.
pub Ascending-ne : (x : Text) (l : List Text) → Ascending (x ∷ l) → All (λ y. x ≢ y) l
Ascending-ne x l h = All-imp l (λ y k. k.1) (Ascending-Above x l h)

pub Ascending-tail : (x : Text) (l : List Text) → Ascending (x ∷ l) → Ascending l
Ascending-tail x [] h = tt
Ascending-tail x (y ∷ l) h = h.2
