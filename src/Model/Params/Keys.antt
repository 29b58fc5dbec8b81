-- ===== src/Model/Params/Keys.antt =====
-- `param_key_segments` of src/model/params.rs: `root[a][]` is `root`, `a` and the empty segment.
use seekwel.Prelude.{Option, none, some, List, [], ◌∷◌, ◌++◌, Text, eqb, is_empty, if◌then◌else◌}

-- The text before the first `[`, and the rest from there on, if there is one.
unfoldable pub split_bracket : Text → Option (Text × Text)
split_bracket [] = none
split_bracket (c ∷ s) =
    let rest = split_bracket s in
    if eqb c 91
    then some ([], c ∷ s)
    else elim rest [ none ↦ none | some (root, tail) ↦ some (c ∷ root, tail) ]

-- The loop over the brackets, character by character: `none` is its head, and `some segment` has
-- what it read behind `[`. Where a bracket does not open or close it fails.
unfoldable pub bracket_loop : Option Text → Text → Option (List Text)
bracket_loop none [] = some []
bracket_loop none (c ∷ s) = let rest = bracket_loop (some []) s in if eqb c 91 then rest else none
bracket_loop (some segment) [] = none
bracket_loop (some segment) (c ∷ s) =
    let next = bracket_loop none s in
    let longer = bracket_loop (some (segment ++ c ∷ [])) s in
    if eqb c 93
    then elim next [ none ↦ none | some segments ↦ some (segment ∷ segments) ]
    else longer

abbrev pub or_whole : Text → Text → Option (List Text) → List Text
or_whole key root none = key ∷ []
or_whole key root (some segments) = root ∷ segments

unfoldable pub param_key_segments : Text → List Text
unfolding split_bracket bracket_loop
param_key_segments key = elim (split_bracket key) [
  | none ↦ key ∷ []
  | some (root, rest) ↦
      if is_empty root then key ∷ [] else or_whole key root (bracket_loop none rest)
]

-- The segments in brackets.
unfoldable pub bracketed : List Text → Text
bracketed [] = []
bracketed (segment ∷ segments) = 91 ∷ (segment ++ 93 ∷ bracketed segments)

-- A key from its segments.
unfoldable pub print_key : Text → List Text → Text
print_key root segments = root ++ bracketed segments
