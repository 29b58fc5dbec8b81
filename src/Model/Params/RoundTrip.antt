-- ===== src/Model/Params/RoundTrip.antt =====
-- What a bracketed key inserts is found by its path.
use seekwel.Prelude.{
  ℕ, ◌≡◌, ◌≢◌, refl, sym, ap, ◌∙◌, false, none, some, List, [], ◌∷◌, ◌++◌, append_assoc, append-nil,
  Text, eqb, is_empty, Lacks, All, arith,
}
use seekwel.Model.Params.Value.{ParamValue, Entries, map, put, get, get-put, as_map}
use seekwel.Model.Params.Keys.{
  split_bracket, bracket_loop, param_key_segments, bracketed, print_key,
}
use seekwel.Model.Params.Paths.{
  container_for, insert_path, or_insert, insert_entry, take_in, take_path,
}

-- A segment that names an entry of a map.
abbrev pub IsName : Text → Type 0
IsName segment = is_empty segment ≡ false

pub insert_path-name :
    (segment : Text) (rest : List Text) (value self : ParamValue)
    → IsName segment
    → insert_path (segment ∷ rest) value self
      ≡ map (
          put segment
            (insert_path rest value (or_insert (container_for rest) (get (as_map self) segment)))
            (as_map self))
unfolding insert_path
insert_path-name segment rest value self h = rw h refl

insert_path-end : (value self : ParamValue) → insert_path [] value self ≡ value
unfolding insert_path
insert_path-end value self = refl

take_path-entry :
    (segment next : Text) (rest : List Text) (child : ParamValue) (m : Entries)
    → get m segment ≡ some child
    → (take_path (segment ∷ next ∷ rest) (map m)).0 ≡ (take_path (next ∷ rest) child).0
unfolding take_path take_in
take_path-entry segment next rest child m h = rw (h, take_in) refl

pub take_path-last :
    (segment : Text) (m : Entries) → (take_path (segment ∷ []) (map m)).0 ≡ get m segment
unfolding take_path take_in
take_path-last segment m = refl

-- After an insertion at a path of names, the value is taken from that path.
take_path-insert_path :
    (segment : Text) (rest : List Text) (value self : ParamValue)
    → All IsName (segment ∷ rest)
    → (take_path (segment ∷ rest) (insert_path (segment ∷ rest) value self)).0 ≡ some value
take_path-insert_path segment [] value self h =
    ap (λ v. (take_path (segment ∷ []) v).0) (insert_path-name segment [] value self h.0)
    ∙ take_path-last segment _
    ∙ get-put segment (insert_path [] value _) (as_map self)
    ∙ ap some (insert_path-end value _)
take_path-insert_path segment (next ∷ rest) value self h =
    let child = or_insert (container_for (next ∷ rest)) (get (as_map self) segment) in
    let inner = insert_path (next ∷ rest) value child in
    ap (λ v. (take_path (segment ∷ next ∷ rest) v).0)
      (insert_path-name segment (next ∷ rest) value self h.0)
    ∙ take_path-entry segment next rest inner (put segment inner (as_map self))
        (get-put segment inner (as_map self))
    ∙ take_path-insert_path next rest value child h.1

-- A segment that can stand in brackets.
abbrev pub Fits : Text → Type 0
Fits segment = IsName segment × Lacks 93 segment

not_closing : (c : ℕ) → c ≢ 93 → eqb c 93 ≡ false
not_closing c h = ground arith

not_opening : (c : ℕ) → c ≢ 91 → eqb c 91 ≡ false
not_opening c h = ground arith

bracket_loop-segment :
    (start segment s : Text) (segments : List Text)
    → Lacks 93 segment
    → bracket_loop none s ≡ some segments
    → bracket_loop (some start) (segment ++ 93 ∷ s) ≡ some ((start ++ segment) ∷ segments)
unfolding bracket_loop
bracket_loop-segment start [] s segments h e =
    rw e (ap (λ t. some (t ∷ segments)) (sym (append-nil start)))
bracket_loop-segment start (c ∷ segment) s segments h e = rw (not_closing c h.0) (
    bracket_loop-segment (start ++ c ∷ []) segment s segments h.1 e
    ∙ ap (λ t. some (t ∷ segments)) (append_assoc start (c ∷ []) segment))

bracket_loop-bracketed :
    (segments : List Text)
    → All (Lacks 93) segments
    → bracket_loop none (bracketed segments) ≡ some segments
unfolding bracket_loop bracketed
bracket_loop-bracketed [] h = refl
bracket_loop-bracketed (segment ∷ segments) h =
    bracket_loop-segment [] segment (bracketed segments) segments h.0
      (bracket_loop-bracketed segments h.1)

split_bracket-root :
    (root s : Text) → Lacks 91 root → split_bracket (root ++ 91 ∷ s) ≡ some (root, 91 ∷ s)
unfolding split_bracket
split_bracket-root [] s h = refl
split_bracket-root (c ∷ root) s h = rw (not_opening c h.0) (rw (split_bracket-root root s h.1) refl)

split_bracket-whole : (root : Text) → Lacks 91 root → split_bracket root ≡ none
unfolding split_bracket
split_bracket-whole [] h = refl
split_bracket-whole (c ∷ root) h = rw (not_opening c h.0) (rw (split_bracket-whole root h.1) refl)

-- A key of brackets splits in the segments that it was printed from.
pub param_key_segments-print_key :
    (root : Text) (segments : List Text)
    → IsName root
    → Lacks 91 root
    → All (Lacks 93) segments
    → param_key_segments (print_key root segments) ≡ root ∷ segments
unfolding param_key_segments print_key bracketed
param_key_segments-print_key root [] n h k =
    rw (append-nil root) (rw (split_bracket-whole root h, param_key_segments) refl)
param_key_segments-print_key root (segment ∷ segments) n h k =
    rw (split_bracket-root root (segment ++ 93 ∷ bracketed segments) h, param_key_segments)
      (rw n (rw (bracket_loop-bracketed (segment ∷ segments) k) refl))

All-Fits :
    (segments : List Text) → All Fits segments → All IsName segments × All (Lacks 93) segments
All-Fits [] h = (tt, tt)
All-Fits (segment ∷ segments) h =
    let (names, lacks) = All-Fits segments h.1 in ((h.0.0, names), (h.0.1, lacks))

-- A value that is inserted under a key `root[a][b]..`, with a root that is not empty and has no
-- opening bracket, and segments that are not empty and have no closing bracket, is taken from the
-- path of the root and the segments, whatever the params were before.
pub take_path-insert_entry :
    (root : Text) (segments : List Text) (value self : ParamValue)
    → IsName root
    → Lacks 91 root
    → All Fits segments
    → (take_path (root ∷ segments) (insert_entry (print_key root segments) value self)).0
      ≡ some value
unfolding insert_entry
take_path-insert_entry root segments value self n h k =
    let (names, lacks) = All-Fits segments k in
    rw (param_key_segments-print_key root segments n h lacks)
      (take_path-insert_path root segments value self (n, names))
