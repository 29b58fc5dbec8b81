-- ===== src/Prelude/Blocks.antt =====
-- A list that ascends in a rank is made of its entries rank by rank.
use Prim.Native.Nat.{ℕ, zero, suc, ◌+◌, ◌<◌, ◌≤◌}
use mathlib.Core.Path.{◌≡◌, refl, ap, ◌∙◌}
use mathlib.Core.Bool.{Bool, false}
use mathlib.Core.List.{List, [], ◌∷◌, ◌++◌}
use mathlib.Core.Logic.{inl, inr}
use native.Mathlib.Omega.{arith}
use seekwel.Prelude.Lists.{All}
use seekwel.Prelude.Tests.{eqb, if◌then◌else◌, Bool-cases}

abbrev pub only : {A : Type 0} → (A → Bool) → List A → List A
only p [] = []
only p (x ∷ xs) = let rest = only p xs in if p x then x ∷ rest else rest

pub only_alike :
    {A : Type 0} (p q : A → Bool) → ((x : A) → p x ≡ q x) → (xs : List A) → only p xs ≡ only q xs
only_alike p q h [] = refl
only_alike p q h (x ∷ xs) = rw (h x) (rw (only_alike p q h xs) refl)

module _ {A : Type 0} (rank : A → ℕ) where
  -- What has the ranks from `k` on, `n` of them, rank by rank.
  unfoldable pub blocks : ℕ → ℕ → List A → List A
  blocks zero k xs = []
  blocks (suc n) k xs = only (λ x. eqb (rank x) k) xs ++ blocks n (k + 1) xs

  unfoldable pub AtLeast : ℕ → List A → Type 0
  AtLeast r = All (λ x. r ≤ rank x)

  unfoldable pub Ascends : List A → Type 0
  unfolding AtLeast
  Ascends [] = Unit
  Ascends (x ∷ xs) = AtLeast (rank x) xs × Ascends xs

  blocks-nil : (n k : ℕ) → blocks n k [] ≡ []
  unfolding blocks
  blocks-nil zero k = refl
  blocks-nil (suc n) k = blocks-nil n (k + 1)

  only-above : (r k : ℕ) (xs : List A) → AtLeast r xs → k < r → only (λ x. eqb (rank x) k) xs ≡ []
  unfolding AtLeast
  only-above r k [] h e = refl
  only-above r k (x ∷ xs) h e = ground (arith, h.0, only-above r k xs h.1 e)

  blocks-past : (n k : ℕ) (x : A) (xs : List A) → rank x < k → blocks n k (x ∷ xs) ≡ blocks n k xs
  unfolding blocks
  blocks-past zero k x xs h = refl
  blocks-past (suc n) k x xs h =
      let other : eqb (rank x) k ≡ false = ground (arith, h) in
      rw other
        (ap (λ l. only (λ y. eqb (rank y) k) xs ++ l) (blocks-past n (k + 1) x xs (omega arith)))

  blocks-first :
      (n k : ℕ) (x : A) (xs : List A)
      → AtLeast (rank x) xs
      → k ≤ rank x
      → rank x < k + n
      → blocks n k (x ∷ xs) ≡ x ∷ blocks n k xs
  unfolding blocks
  blocks-first zero k x xs a h l = absurd (omega arith)
  blocks-first (suc n) k x xs a h l = elim (Bool-cases (eqb (rank x) k)) [
    | inl same ↦ rw same (
        ap (λ l. x ∷ (only (λ y. eqb (rank y) k) xs ++ l))
          (blocks-past n (k + 1) x xs (ground (arith, same))))
    | inr other ↦
        (let below : k < rank x = ground (arith, other, h) in
          rw other (
            rw (only-above (rank x) k xs a below)
              (blocks-first n (k + 1) x xs a (omega arith) (omega arith))))
  ]

  pub blocks_all :
      (n : ℕ) (xs : List A) → Ascends xs → All (λ x. rank x < n) xs → blocks n 0 xs ≡ xs
  unfolding Ascends
  blocks_all n [] a h = blocks-nil n 0
  blocks_all n (x ∷ xs) a h =
      blocks-first n 0 x xs a.0 (omega arith) (omega (arith, h.0))
      ∙ ap (◌∷◌ x) (blocks_all n xs a.1 h.1)

  pub AtLeast-le : (k r : ℕ) (xs : List A) → k ≤ r → AtLeast r xs → AtLeast k xs
  unfolding AtLeast
  AtLeast-le k r [] h a = tt
  AtLeast-le k r (x ∷ xs) h a = (omega (arith, a.0, h), AtLeast-le k r xs h a.1)
