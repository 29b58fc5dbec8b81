-- ===== src/Tests/Params.antt =====
-- Params from forms at concrete inputs.
use seekwel.Prelude.{
  ◌≡◌, ◌==◌, refl, none, some, [], ◌∷◌, codes, Text, all, not, eqb, Lacks, ℕ, true, arith, inl,
}
use seekwel.Prelude.Integers.{negsuc}
use seekwel.Prelude.Decimal.{undecimal}
use seekwel.Model.Params.Value.{scalar, list, map, nil, cons, end, entry, get, as_map}
use seekwel.Model.Params.Numbers.{IntType, parse_int, upper_bound, InRange, parse_int-InRange}
use seekwel.Model.Params.Deserialize.{
  done, visit_bool, visit_int, deserialize_bool, deserialize_int, value_of_bool, value_of_int,
  deserialize-value,
}
use seekwel.Model.Params.Keys.{print_key}
use seekwel.Model.Params.Paths.{insert_entry, take_path}
use seekwel.Model.Params.RoundTrip.{take_path-insert_entry}
use seekwel.Model.Params.Lists.{key, insert_each, behind, insert_each-list}

-- A text lacks a character if the test of each of its characters says so.
lacks : (c : ℕ) (s : Text) → all (λ x. not (eqb x c)) s ≡ true → Lacks c s
lacks c [] h = tt
lacks c (x ∷ s) h = ground (arith, lacks c s)

-- `pet[owner][name]` over params that have a scalar for `pet`.
take_path-insert_entry_example :
    (take_path (codes "pet" ∷ codes "owner" ∷ codes "name" ∷ []) (
      insert_entry
        (print_key (codes "pet") (codes "owner" ∷ codes "name" ∷ []))
        (scalar (codes "Pat"))
        (map (entry (codes "pet") (scalar (codes "x")) end)))).0
    ≡ some (scalar (codes "Pat"))
take_path-insert_entry_example =
    take_path-insert_entry (codes "pet") (codes "owner" ∷ codes "name" ∷ []) (scalar (codes "Pat"))
      (map (entry (codes "pet") (scalar (codes "x")) end)) refl (lacks 91 (codes "pet") refl)
      ((refl, lacks 93 (codes "owner") refl), ((refl, lacks 93 (codes "name") refl), tt))

insert_each-list_example :
    get
      (as_map (
        insert_each
          (key (codes "tag") refl (lacks 91 (codes "tag") refl))
          (scalar (codes "b") ∷ scalar (codes "c") ∷ [])
          (map (entry (codes "tag") (list (cons (scalar (codes "a")) nil)) end))))
      (codes "tag")
    ≡ some (
        list
          (behind (cons (scalar (codes "a")) nil) (scalar (codes "b") ∷ scalar (codes "c") ∷ [])))
unfolding get as_map ◌==◌
insert_each-list_example =
    insert_each-list (codes "tag") refl (lacks 91 (codes "tag") refl) (scalar (codes "b"))
      (scalar (codes "c") ∷ []) (cons (scalar (codes "a")) nil)
      (map (entry (codes "tag") (list (cons (scalar (codes "a")) nil)) end)) (inl refl)

abbrev int8 : IntType
int8 = record { signed = true; bits = 8 }

least : InRange int8 (negsuc 127)
unfolding upper_bound
least = (refl, omega arith)

deserialize-value_example :
    (deserialize_bool {F = ℕ} (value_of_bool true) ≡ done (visit_bool true))
    × (deserialize_int {F = ℕ} int8 (codes "an integer") (value_of_int (negsuc 127))
        ≡ done (visit_int int8 (negsuc 127)))
deserialize-value_example = deserialize-value true int8 (negsuc 127) (codes "an integer") least

minus_128 : parse_int int8 (codes "-128") ≡ some (negsuc 127)
unfolding parse_int upper_bound undecimal
minus_128 = refl

too_small : parse_int int8 (codes "-129") ≡ none
unfolding parse_int upper_bound undecimal
too_small = refl

parse_int-InRange_example : InRange int8 (negsuc 127)
parse_int-InRange_example = parse_int-InRange int8 (codes "-128") (negsuc 127) minus_128
