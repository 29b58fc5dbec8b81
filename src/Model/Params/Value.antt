-- ===== src/Model/Params/Value.antt =====
-- `ParamValue` of src/model/params.rs, with the operations on its lists and maps.
use seekwel.Prelude.{
  ◌≡◌, refl, Bool, true, false, Option, none, some, Text, ◌==◌, eq_refl, le, Bool-cases,
  if◌then◌else◌, inl, inr,
}

mutual
  pub data ParamValue : Type 0 where
    null : ParamValue
    scalar : Text → ParamValue
    list : Values → ParamValue
    map : Entries → ParamValue

  -- `Vec<ParamValue>`
  pub data Values : Type 0 where
    nil : Values
    cons : ParamValue → Values → Values

  -- `BTreeMap<String, ParamValue>`, in the order of the keys.
  pub data Entries : Type 0 where
    end : Entries
    entry : Text → ParamValue → Entries → Entries

unfoldable pub push : ParamValue → Values → Values
push v nil = cons v nil
push v (cons x xs) = cons x (push v xs)

unfoldable pub last : Values → Option ParamValue
last nil = none
last (cons x nil) = some x
last (cons x (cons y xs)) = last (cons y xs)

-- `*list.last_mut() = v`
unfoldable pub set_last : ParamValue → Values → Values
set_last v nil = nil
set_last v (cons x nil) = cons v nil
set_last v (cons x (cons y xs)) = cons x (set_last v (cons y xs))

unfoldable pub get : Entries → Text → Option ParamValue
get end k = none
get (entry k' v m) k = let rest = get m k in if k == k' then some v else rest

-- `map.insert(k, v)`
unfoldable pub put : Text → ParamValue → Entries → Entries
put k v end = entry k v end
put k v (entry k' v' m) =
    let rest = put k v m in
    if k == k' then entry k v m else if le k k' then entry k v (entry k' v' m) else entry k' v' rest

-- `map.remove(k)`, what is left of the map.
unfoldable pub remove : Text → Entries → Entries
remove k end = end
remove k (entry k' v m) = let rest = remove k m in if k == k' then m else entry k' v rest

pub get-put : (k : Text) (v : ParamValue) (m : Entries) → get (put k v m) k ≡ some v
unfolding get put
get-put k v end = rw (eq_refl k) refl
get-put k v (entry k' v' m) = elim (Bool-cases (k == k')) [
  | inl same ↦ rw same (rw (eq_refl k) refl)
  | inr other ↦ rw other (elim (Bool-cases (le k k')) [
    | inl below ↦ rw below (rw (eq_refl k) refl)
    | inr above ↦ rw above (rw other (get-put k v m))
  ])
]

-- `as_list_mut`: another value becomes an empty list.
unfoldable pub as_list : ParamValue → Values
as_list (list xs) = xs
as_list _ = nil

-- `as_map_mut`: another value becomes an empty map.
unfoldable pub as_map : ParamValue → Entries
as_map (map m) = m
as_map _ = end

unfoldable pub is_list : ParamValue → Bool
is_list (list xs) = true
is_list _ = false

-- `as_str`, and `into_string` in the same way.
unfoldable pub as_str : ParamValue → Option Text
as_str (scalar raw) = some raw
as_str _ = none
