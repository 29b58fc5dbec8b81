-- ===== src/Schema/Diff/Lookup.antt =====
-- The maps by name that `diff` builds, over entries whose names ascend.
use seekwel.Prelude.{
  ◌≡◌, ◌≢◌, refl, sym, ap, subst, ◌∙◌, true, false, some, List, [], ◌∷◌, ◌++◌, map, append_assoc,
  append-nil, Text, ◌==◌, eq_iff, eq_refl, le, le_antisymm, All, All-map, Bool-cases, inl, inr,
}
use seekwel.Prelude.Maps.{TreeMap, insert_entry, insert_all, get}
use seekwel.Schema.Names.{Ascending, Ascending-Above, Ascending-ne, Ascending-tail}

pub ==_of_≢ : (a b : Text) → a ≢ b → (a == b) ≡ false
==_of_≢ a b h = elim (Bool-cases (a == b)) [ inl e ↦ absurd (h ((eq_iff a b).0 e)) | inr e ↦ e ]

le_of_below : (a b : Text) → le a b ≡ true → a ≢ b → le b a ≡ false
le_of_below a b h n = elim (Bool-cases (le b a)) [
  | inl e ↦ absurd (n (le_antisymm a b h e))
  | inr e ↦ e
]

module _ {A : Type 0} (key : A → Text) where
  -- Each entry under its name.
  abbrev pub tag : List A → TreeMap A
  tag vs = map (λ v. (key v, v)) vs

  insert_entry-last :
      (v : A) (acc : List A)
      → All (λ y. (le (key y) (key v) ≡ true) × (key y ≢ key v)) acc
      → insert_entry (key v) v (tag acc) ≡ tag (acc ++ (v ∷ []))
  unfolding insert_entry
  insert_entry-last v [] h = refl
  insert_entry-last v (y ∷ acc) h = rw (
    ==_of_≢ (key v) (key y) (λ e. h.0.1 (sym e)),
    le_of_below (key y) (key v) h.0.0 h.0.1,
    insert_entry-last v acc h.1,
  )

  All-at :
      (P : Text → Type 0) (acc vs : List A) (v : A) → All P (map key (acc ++ v ∷ vs)) → P (key v)
  All-at P [] vs v h = h.0
  All-at P (y ∷ acc) vs v h = All-at P acc vs v h.1

  Ascending-before :
      (acc vs : List A) (v : A)
      → Ascending (map key (acc ++ v ∷ vs))
      → All (λ y. (le (key y) (key v) ≡ true) × (key y ≢ key v)) acc
  Ascending-before [] vs v h = tt
  Ascending-before (y ∷ acc) vs v h = (
    All-at (λ k. (le (key y) k ≡ true) × (key y ≢ k)) acc vs v
        (Ascending-Above (key y) (map key (acc ++ v ∷ vs)) h),
    Ascending-before acc vs v (Ascending-tail (key y) (map key (acc ++ v ∷ vs)) h),
  )

  insert_all-tag :
      (vs acc : List A)
      → Ascending (map key (acc ++ vs))
      → insert_all key vs (tag acc) ≡ tag (acc ++ vs)
  unfolding insert_all
  insert_all-tag [] acc h = ap tag (sym (append-nil acc))
  insert_all-tag (v ∷ vs) acc h =
      ap (insert_all key vs) (insert_entry-last v acc (Ascending-before acc vs v h))
      ∙ insert_all-tag vs (acc ++ (v ∷ []))
          (subst (λ l. Ascending (map key l)) (sym (append_assoc acc (v ∷ []) vs)) h)
      ∙ ap tag (append_assoc acc (v ∷ []) vs)

  -- Entries whose names ascend are in the order of their map.
  pub insert_all_of_Ascending :
      (vs : List A) → Ascending (map key vs) → insert_all key vs [] ≡ tag vs
  insert_all_of_Ascending vs h = insert_all-tag vs [] h

  get-skip :
      (v : A) (m : TreeMap A) (ws : List A)
      → All (λ w. key v ≢ key w) ws
      → All (λ w. get m (key w) ≡ some w) ws
      → All (λ w. get ((key v, v) ∷ m) (key w) ≡ some w) ws
  unfolding get
  get-skip v m [] h g = tt
  get-skip v m (w ∷ ws) h g =
      (rw (==_of_≢ (key w) (key v) (λ e. h.0 (sym e)), g.0), get-skip v m ws h.1 g.1)

  -- Every entry is found under its name.
  pub get-tag : (vs : List A) → Ascending (map key vs) → All (λ v. get (tag vs) (key v) ≡ some v) vs
  unfolding get
  get-tag [] h = tt
  get-tag (v ∷ vs) h = (
    rw (eq_refl (key v)),
    get-skip v (tag vs) vs
        ((All-map (λ k. key v ≢ k) key vs).1 (Ascending-ne (key v) (map key vs) h))
        (get-tag vs (Ascending-tail (key v) (map key vs) h)),
  )
