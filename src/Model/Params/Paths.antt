-- ===== src/Model/Params/Paths.antt =====
-- Nested paths of `ParamValue` in src/model/params.rs.
use seekwel.Prelude.{
  Bool, true, false, Option, none, some, List, [], ◌∷◌, Text, is_empty, if◌then◌else◌,
}
use seekwel.Model.Params.Value.{
  ParamValue, null, scalar, list, map, Values, nil, Entries, end, push, last, set_last, get, put,
  remove, as_list, as_map, is_list,
}
use seekwel.Model.Params.Keys.{param_key_segments}

-- `matches!(next_segment, Some(""))`
starts_empty : List Text → Bool
starts_empty [] = false
starts_empty (segment ∷ rest) = is_empty segment

unfoldable pub container_for : List Text → ParamValue
unfolding starts_empty
container_for rest = if starts_empty rest then list nil else map end

-- A map, without an entry for `segment` or with one where the rest goes.
can_insert_in : (ParamValue → Bool) → List Text → Text → ParamValue → Bool
can_insert_in below rest segment (map m) = elim (get m segment) [
  | none ↦ true
  | some child ↦ elim rest [ [] ↦ false | s ∷ more ↦ below child ]
]
can_insert_in below rest segment _ = false

unfoldable pub can_insert_path : List Text → ParamValue → Bool
unfolding can_insert_in
can_insert_path [] self = false
can_insert_path (segment ∷ rest) self =
    if is_empty segment
    then is_list self
    else can_insert_in (can_insert_path rest) rest segment self

-- The list segment `[]`, before the segments `rest`: `below` goes on with them.
unfoldable pub into_list : (ParamValue → ParamValue) → List Text → Values → Values
into_list below [] items = push (below null) items
into_list below (s ∷ rest) items =
    let fresh = push (below (container_for (s ∷ rest))) items in
    elim (last items) [
      | none ↦ fresh
      | some item ↦ if can_insert_path (s ∷ rest) item then set_last (below item) items else fresh
    ]

abbrev pub or_insert : ParamValue → Option ParamValue → ParamValue
or_insert v none = v
or_insert v (some child) = child

unfoldable pub insert_path : List Text → ParamValue → ParamValue → ParamValue
unfolding into_list
insert_path [] value self = value
insert_path (segment ∷ rest) value self =
    let below = insert_path rest value in
    if is_empty segment
    then list (into_list below rest (as_list self))
    else map (
        put segment (below (or_insert (container_for rest) (get (as_map self) segment)))
          (as_map self))

-- `insert_entry`, which never fails.
unfoldable pub insert_entry : Text → ParamValue → ParamValue → ParamValue
insert_entry key value self = insert_path (param_key_segments key) value self

-- The value that is taken out, and what is left. Only maps are gone through.
unfoldable pub take_in :
    (ParamValue → Option ParamValue × ParamValue)
    → List Text
    → Text
    → Entries
    → Option ParamValue × ParamValue
take_in below [] key m = (get m key, map (remove key m))
take_in below (k ∷ rest) key m = elim (get m key) [
  | none ↦ (none, map m)
  | some child ↦ let (taken, left) = below child in (taken, map (put key left m))
]

unfoldable pub take_path : List Text → ParamValue → Option ParamValue × ParamValue
unfolding take_in
take_path [] self = (none, self)
take_path (key ∷ rest) (map m) = take_in (take_path rest) rest key m
take_path (key ∷ rest) null = (none, null)
take_path (key ∷ rest) (scalar raw) = (none, scalar raw)
take_path (key ∷ rest) (list items) = (none, list items)
