-- ===== src/Schema/Normalize/Checks.antt =====
-- What each check of `SchemaDef::normalized` accepts.
use seekwel.Prelude.{
  ◌≡◌, ◌≢◌, refl, true, false, List, [], ◌∷◌, map, arith, Text, ◌==◌, le_total, eq_iff, any, All,
  ◌⊎◌, inl, inr, Bool-cases,
}
use seekwel.Prelude.Sorting.{IsSorted}
use seekwel.Errors.{Error, ok}
use seekwel.Schema.Types.{ColumnDef, IndexDef, TableDef}
use seekwel.Schema.Names.{Ascending, Any}
use seekwel.Schema.Normalize.{by_name, no_duplicates, check_indexes}

module _ {A : Type 0} (name : A → Text) where
  pub by_name-total : (a b : A) → by_name name a b ≡ false → by_name name b a ≡ true
  by_name-total a b = le_total (name a) (name b)

  pub Ascending-IsSorted : (xs : List A) → Ascending (map name xs) → IsSorted (by_name name) xs
  Ascending-IsSorted [] h = tt
  Ascending-IsSorted (x ∷ []) h = tt
  Ascending-IsSorted (x ∷ y ∷ rest) h = (h.0, Ascending-IsSorted (y ∷ rest) h.2)

  pub any-Any :
      (n : Text) (xs : List A) → any (λ x. name x == n) xs ≡ true → Any (λ x. name x ≡ n) xs
  any-Any n [] h = cc
  any-Any n (x ∷ xs) h = elim (Bool-cases (name x == n)) [
    | inl e ↦ inl ((eq_iff _ _).0 e)
    | inr e ↦ inr (any-Any n xs (ground arith))
  ]

  pub Any-any :
      (n : Text) (xs : List A) → Any (λ x. name x ≡ n) xs → any (λ x. name x == n) xs ≡ true
  Any-any n [] h = absurd h
  Any-any n (x ∷ xs) (inl e) = ground (arith, eq_iff (name x) n)
  Any-any n (x ∷ xs) (inr h) = ground (arith, Any-any n xs h)

  pub any-apart :
      (n : Text) (xs : List A) → any (λ x. name x == n) xs ≡ false → All (λ x. name x ≢ n) xs
  any-apart n [] h = tt
  any-apart n (x ∷ xs) h = (ground (arith, eq_iff (name x) n), any-apart n xs (ground arith))

  pub apart-any :
      (n : Text) (xs : List A) → All (λ x. name x ≢ n) xs → any (λ x. name x == n) xs ≡ false
  apart-any n [] h = refl
  apart-any n (x ∷ xs) h = ground (arith, eq_iff (name x) n, apart-any n xs h.1)

module _ {S A : Type 0} (name : A → Text) (error : Text → Error S) where
  pub no_duplicates-Ascending :
      (xs : List A)
      → IsSorted (by_name name) xs
      → no_duplicates name error xs ≡ ok tt
      → Ascending (map name xs)
  unfolding no_duplicates
  no_duplicates-Ascending [] s h = tt
  no_duplicates-Ascending (x ∷ []) s h = tt
  no_duplicates-Ascending (x ∷ y ∷ rest) s h = elim (Bool-cases (name x == name y)) [
    | inl e ↦ absurd (ground arith)
    | inr e ↦ (
      s.0,
      ground (arith, eq_iff (name x) (name y)),
      no_duplicates-Ascending (y ∷ rest) s.1 (ground arith),
    )
  ]

  pub Ascending-no_duplicates :
      (xs : List A) → Ascending (map name xs) → no_duplicates name error xs ≡ ok tt
  unfolding no_duplicates
  Ascending-no_duplicates [] h = refl
  Ascending-no_duplicates (x ∷ []) h = refl
  Ascending-no_duplicates (x ∷ y ∷ rest) h =
      ground (arith, eq_iff (name x) (name y), Ascending-no_duplicates (y ∷ rest) h.2)

abbrev pub IsKnown : TableDef → IndexDef → Type 0
IsKnown t i = (i.column ≡ t.primary_key.name) ⊎ Any (λ (c : ColumnDef). c.name ≡ i.column) t.columns

module _ {S : Type 0} where
  pub check_indexes_inv :
      (t : TableDef) (l : List IndexDef) → check_indexes {S = S} t l ≡ ok tt → All (IsKnown t) l
  unfolding check_indexes
  check_indexes_inv t [] h = tt
  check_indexes_inv t (i ∷ l) h = elim (Bool-cases (i.column == t.primary_key.name)) [
    | inl e ↦ (inl ((eq_iff _ _).0 e), check_indexes_inv t l (rw e at h))
    | inr e ↦ elim (Bool-cases (any (λ (c : ColumnDef). c.name == i.column) t.columns)) [
      | inl k ↦ (
        inr (any-Any (λ (c : ColumnDef). c.name) i.column t.columns k),
        check_indexes_inv t l (ground arith),
      )
      | inr k ↦ absurd (ground arith)
    ]
  ]

  pub known-check_indexes :
      (t : TableDef) (l : List IndexDef) → All (IsKnown t) l → check_indexes {S = S} t l ≡ ok tt
  unfolding check_indexes
  known-check_indexes t [] h = refl
  known-check_indexes t (i ∷ l) (inl e, h) =
      ground (arith, eq_iff i.column t.primary_key.name, known-check_indexes t l h)
  known-check_indexes t (i ∷ l) (inr e, h) =
      ground
        (arith, Any-any (λ (c : ColumnDef). c.name) i.column t.columns e, known-check_indexes t l h)
