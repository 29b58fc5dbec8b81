-- ===== src/Prelude/Maps.antt =====
-- `BTreeMap` with text keys: its entries in the order of the keys.
use mathlib.Core.Bool.{Bool}
use mathlib.Core.Option.{Option, none, some}
use mathlib.Core.List.{List, [], ◌∷◌}
use seekwel.Prelude.Tests.{if◌then◌else◌, is_some}
use seekwel.Prelude.Strings.{Text, ◌==◌, le}

abbrev pub TreeMap : Type 0 → Type 0
TreeMap A = List (Text × A)

module _ {A : Type 0} where
  -- Of two entries of one key the later one stays.
  unfoldable pub insert_entry : Text → A → TreeMap A → TreeMap A
  insert_entry k v [] = (k, v) ∷ []
  insert_entry k v ((k', v') ∷ m) =
      let rest = insert_entry k v m in
      if k == k' then (k, v) ∷ m else if le k k' then (k, v) ∷ (k', v') ∷ m else (k', v') ∷ rest

  unfoldable pub get : TreeMap A → Text → Option A
  get [] k = none
  get ((k', v') ∷ m) k = let rest = get m k in if k == k' then some v' else rest

  unfoldable pub contains_key : TreeMap A → Text → Bool
  unfolding get
  contains_key m k = is_some (get m k)

  unfoldable pub insert_all : (A → Text) → List A → TreeMap A → TreeMap A
  unfolding insert_entry
  insert_all key [] m = m
  insert_all key (v ∷ vs) m = insert_all key vs (insert_entry (key v) v m)
