-- ===== src/Prelude/Sorting.antt =====
-- `slice::sort_by` of the standard library: a stable sort, here by insertion.
use mathlib.Core.Path.{◌≡◌, refl}
use mathlib.Core.Bool.{Bool, true, false, ◌||◌}
use mathlib.Core.List.{List, [], ◌∷◌, Perm, map}
use mathlib.Core.List.Perm
use native.Mathlib.Omega.{arith}
use mathlib.Core.Logic.{inl, inr}
use seekwel.Prelude.Lists.{All, any}
use seekwel.Prelude.Tests.{if◌then◌else◌, Bool-cases}

module _ {ℓ} {A : Type ℓ} (leq : A → A → Bool) where
  -- Before the first entry that is not smaller.
  pub insert_by : A → List A → List A
  insert_by x [] = x ∷ []
  insert_by x (y ∷ ys) = if leq x y then x ∷ y ∷ ys else y ∷ insert_by x ys

  unfoldable pub sort_by : List A → List A
  unfolding insert_by
  sort_by [] = []
  sort_by (x ∷ xs) = insert_by x (sort_by xs)

  -- Each entry is at most the next.
  abbrev pub IsSorted : List A → Type 0
  IsSorted [] = Unit
  IsSorted (x ∷ []) = Unit
  IsSorted (x ∷ y ∷ rest) = (leq x y ≡ true) × IsSorted (y ∷ rest)

  insert_by-perm : (x : A) (xs : List A) → Perm (insert_by x xs) (x ∷ xs)
  unfolding insert_by
  insert_by-perm x [] = Perm.refl (x ∷ [])
  insert_by-perm x (y ∷ ys) = elim (Bool-cases (leq x y)) [
    | inl e ↦ rw e (Perm.refl (x ∷ y ∷ ys))
    | inr e ↦ rw e (Perm.trans (Perm.cons y (insert_by-perm x ys)) (Perm.swap x y ys))
  ]

  pub sort_by-perm : (xs : List A) → Perm (sort_by xs) xs
  unfolding sort_by
  sort_by-perm [] = Perm.refl []
  sort_by-perm (x ∷ xs) = Perm.trans (insert_by-perm x (sort_by xs)) (Perm.cons x (sort_by-perm xs))

  -- A sorted list stays as it is.
  pub sort_by_of_IsSorted : (xs : List A) → IsSorted xs → sort_by xs ≡ xs
  unfolding sort_by
  sort_by_of_IsSorted [] h = refl
  sort_by_of_IsSorted (x ∷ []) h = refl
  sort_by_of_IsSorted (x ∷ y ∷ rest) h = rw (sort_by_of_IsSorted (y ∷ rest) h.1) (ground arith)

  module _ (total : (a b : A) → leq a b ≡ false → leq b a ≡ true) where
    insert_by-IsSorted : (x : A) (xs : List A) → IsSorted xs → IsSorted (insert_by x xs)
    unfolding insert_by
    insert_by-IsSorted x [] h = tt
    insert_by-IsSorted x (y ∷ []) h = ground (arith, total x y)
    insert_by-IsSorted x (y ∷ z ∷ rest) h =
        ground (arith, total x y, insert_by-IsSorted x (z ∷ rest))

    pub sort_by-IsSorted : (xs : List A) → IsSorted (sort_by xs)
    unfolding sort_by
    sort_by-IsSorted [] = tt
    sort_by-IsSorted (x ∷ xs) = insert_by-IsSorted x (sort_by xs) (sort_by-IsSorted xs)

  insert_by-All {κ} :
      (P : A → Type κ) (x : A) (xs : List A) → P x → All P xs → All P (insert_by x xs)
  unfolding insert_by
  insert_by-All P x [] h k = (h, tt)
  insert_by-All P x (y ∷ ys) h k = elim (Bool-cases (leq x y)) [
    | inl e ↦ rw e (h, k)
    | inr e ↦ rw e (k.0, insert_by-All P x ys h k.1)
  ]

  pub sort_by-All {κ} : (P : A → Type κ) (xs : List A) → All P xs → All P (sort_by xs)
  unfolding sort_by
  sort_by-All P [] h = h
  sort_by-All P (x ∷ xs) h = insert_by-All P x (sort_by xs) h.0 (sort_by-All P xs h.1)

  insert_by-All_inv {κ} :
      (P : A → Type κ) (x : A) (xs : List A) → All P (insert_by x xs) → P x × All P xs
  unfolding insert_by
  insert_by-All_inv P x [] h = h
  insert_by-All_inv P x (y ∷ ys) h = elim (Bool-cases (leq x y)) [
    | inl e ↦ let k : All P (x ∷ y ∷ ys) = rw e at h in k
    | inr e ↦
        let k : All P (y ∷ insert_by x ys) = rw e at h in
        let r = insert_by-All_inv P x ys k.1 in (r.0, (k.0, r.1))
  ]

  pub sort_by-All_inv {κ} : (P : A → Type κ) (xs : List A) → All P (sort_by xs) → All P xs
  unfolding sort_by
  sort_by-All_inv P [] h = h
  sort_by-All_inv P (x ∷ xs) h =
      let r = insert_by-All_inv P x (sort_by xs) h in (r.0, sort_by-All_inv P xs r.1)

-- The values of a function over a sorted list.
module _ {ℓ κ} {A : Type ℓ} {B : Type κ} (leq : A → A → Bool) (f : A → B) where
  map-insert_by-perm : (x : A) (xs : List A) → Perm (map f (insert_by leq x xs)) (f x ∷ map f xs)
  unfolding insert_by
  map-insert_by-perm x [] = Perm.refl (f x ∷ [])
  map-insert_by-perm x (y ∷ ys) = elim (Bool-cases (leq x y)) [
    | inl e ↦ rw e (Perm.refl (f x ∷ f y ∷ map f ys))
    | inr e ↦
        rw e (
          Perm.trans (Perm.cons (f y) (map-insert_by-perm x ys)) (Perm.swap (f x) (f y) (map f ys)))
  ]

  pub map-sort_by-perm : (xs : List A) → Perm (map f (sort_by leq xs)) (map f xs)
  unfolding sort_by
  map-sort_by-perm [] = Perm.refl []
  map-sort_by-perm (x ∷ xs) =
      Perm.trans (map-insert_by-perm x (sort_by leq xs)) (Perm.cons (f x) (map-sort_by-perm xs))

module _ {ℓ} {A : Type ℓ} (leq : A → A → Bool) (p : A → Bool) where
  any-insert_by : (x : A) (xs : List A) → any p (insert_by leq x xs) ≡ (p x || any p xs)
  unfolding insert_by
  any-insert_by x [] = refl
  any-insert_by x (y ∷ ys) = ground (arith, any-insert_by x ys)

  pub any-sort_by : (xs : List A) → any p (sort_by leq xs) ≡ any p xs
  unfolding sort_by
  any-sort_by [] = refl
  any-sort_by (x ∷ xs) = ground (arith, any-insert_by x (sort_by leq xs), any-sort_by xs)
