-- ===== src/Model/Params/Lists.antt =====
-- Repeated `root[]` keys build a list.
use seekwel.Prelude.{◌≡◌, refl, ap, ◌∙◌, ◌⊎◌, inl, inr, none, some, List, [], ◌∷◌, Text, Lacks}
use seekwel.Model.Params.Value.{
  ParamValue, map, list, Values, nil, push, put, get, get-put, as_map, as_list,
}
use seekwel.Model.Params.Keys.{print_key}
use seekwel.Model.Params.Paths.{container_for, insert_path, or_insert, into_list, insert_entry}
use seekwel.Model.Params.RoundTrip.{IsName, insert_path-name, param_key_segments-print_key}

-- The entries of one key, one after the other.
pub insert_each : Text → List ParamValue → ParamValue → ParamValue
insert_each key [] self = self
insert_each key (value ∷ rest) self = insert_each key rest (insert_entry key value self)

-- These values behind a list.
pub behind : Values → List ParamValue → Values
behind items [] = items
behind items (value ∷ rest) = behind (push value items) rest

module _ (root : Text) (n : IsName root) (h : Lacks 91 root) where
  abbrev pub key : Text
  key = print_key root ([] ∷ [])

  -- What the map has under the root: nothing, or a list.
  Holds : Values → ParamValue → Type 0
  Holds items self =
      (get (as_map self) root ≡ some (list items))
      ⊎ ((get (as_map self) root ≡ none) × (items ≡ nil))

  -- What stands under the root after an entry.
  inner : ParamValue → ParamValue → ParamValue
  inner value self =
      insert_path ([] ∷ []) value (or_insert (container_for ([] ∷ [])) (get (as_map self) root))

  inner_lem :
      (items : Values) (value self : ParamValue)
      → Holds items self
      → inner value self ≡ list (push value items)
  unfolding inner Holds insert_path into_list container_for as_list
  inner_lem items value self (inl e) = rw (e, or_insert) refl
  inner_lem items value self (inr (e, empty)) = rw (e, or_insert) (rw empty refl)

  insert_entry-key :
      (value self : ParamValue)
      → insert_entry key value self ≡ map (put root (inner value self) (as_map self))
  unfolding insert_entry inner
  insert_entry-key value self =
      ap (λ path. insert_path path value self)
        (param_key_segments-print_key root ([] ∷ []) n h (tt, tt))
      ∙ insert_path-name root ([] ∷ []) value self n

  pushed :
      (items : Values) (value self : ParamValue)
      → Holds items self
      → get (as_map (insert_entry key value self)) root ≡ some (list (push value items))
  unfolding as_map
  pushed items value self k =
      ap (λ v. get (as_map v) root) (insert_entry-key value self)
      ∙ get-put root (inner value self) (as_map self)
      ∙ ap some (inner_lem items value self k)

  all_pushed :
      (values : List ParamValue) (items : Values) (self : ParamValue)
      → get (as_map self) root ≡ some (list items)
      → get (as_map (insert_each key values self)) root ≡ some (list (behind items values))
  unfolding insert_each behind Holds
  all_pushed [] items self k = k
  all_pushed (value ∷ rest) items self k =
      all_pushed rest (push value items) (insert_entry key value self)
        (pushed items value self (inl k))

  -- Entries of the key `root[]`, one after the other, build the list of their values in order: behind
  -- the list that the params have under the root, or alone if they have nothing there.
  pub insert_each-list :
      (first : ParamValue) (rest : List ParamValue) (items : Values) (self : ParamValue)
      → (get (as_map self) root ≡ some (list items))
        ⊎ ((get (as_map self) root ≡ none) × (items ≡ nil))
      → get (as_map (insert_each key (first ∷ rest) self)) root
        ≡ some (list (behind items (first ∷ rest)))
  unfolding insert_each behind Holds
  insert_each-list first rest items self k =
      all_pushed rest (push first items) (insert_entry key first self) (pushed items first self k)
