-- ===== src/Sql/Placeholders/Inserted.antt =====
-- What an `INSERT` gives to each column, read from its text: the parts between parentheses, and the
-- entries of each between commas.
use seekwel.Prelude.{
  ℕ, zero, suc, ◌+◌, ◌≤◌, ◌<◌, ◌≡◌, refl, sym, ap, ◌∙◌, List, [], ◌∷◌, ◌++◌, map, Text, codes, join,
  split, split_first, split_piece, eqb, if◌then◌else◌, length, Lacks, Lacks-append, Lacks-join, All,
  append_assoc, arith,
}
use seekwel.Prelude.Decimal.{decimal, decimal_are_digits}
use seekwel.Model.Types.{ColumnDef}
use seekwel.Sql.Render.{placeholder, placeholder_list, placeholders, column_names}
use seekwel.Sql.Mutation.{insert}
use seekwel.Sql.Placeholders.{
  bound_parameters, bound_parameters-plain, Reads-bound_parameters, Reads-placeholder, numbers_from,
}

-- The text before the columns, the columns, the text before the values, and the parameters that
-- each value asks for.
pub record Inserted : Type 0 where
  pub target : Text
  pub names : List Text
  pub word : Text
  pub values : List (List ℕ)

-- An entry behind a comma has a blank before it.
unblank : Text → Text
unblank [] = []
unblank (c ∷ s) = if eqb c 32 then s else c ∷ s

read_parts : List (List Text) → Inserted
unfolding unblank
read_parts ((target ∷ []) ∷ (names ∷ word ∷ []) ∷ (values ∷ [] ∷ []) ∷ []) = record {
  target = target;
  names = map unblank (split 44 names);
  word = word;
  values = map bound_parameters (split 44 values);
}
read_parts _ = record { target = []; names = []; word = []; values = [] }

unfoldable pub read_insert : Text → Inserted
unfolding read_parts
read_insert sql = read_parts (map (split 41) (split 40 sql))

-- A name without blanks, commas and parentheses.
pub record IsEntry (name : Text) : Type 0 where
  pub unbroken : Lacks 32 name
  pub no_comma : Lacks 44 name
  pub no_left : Lacks 40 name
  pub no_right : Lacks 41 name

digits-Lacks : (c : ℕ) (s : Text) → c < 48 → All (λ d. (48 ≤ d) × (d < 58)) s → Lacks c s
digits-Lacks c [] l h = tt
digits-Lacks c (d ∷ s) l h = ((λ e. omega (arith, h.0.0, e, l)), digits-Lacks c s l h.1)

placeholder-Lacks : (c n : ℕ) → c < 48 → Lacks c (placeholder n)
unfolding placeholder
placeholder-Lacks c n l =
    ((λ e. omega (arith, e, l)), digits-Lacks c (decimal n) l (decimal_are_digits n))

placeholder_list-Lacks : (c n start : ℕ) → c < 48 → All (Lacks c) (placeholder_list n start)
unfolding placeholder_list
placeholder_list-Lacks c zero start l = tt
placeholder_list-Lacks c (suc n) start l =
    (placeholder-Lacks c start l, placeholder_list-Lacks c n (start + 1) l)

-- The entries of a list with commas.
behind_blank :
    (s x : Text) (xs : List Text) → split 44 s ≡ x ∷ xs → split 44 (32 ∷ s) ≡ (32 ∷ x) ∷ xs
unfolding split
behind_blank s x xs e = rw e refl

split-list :
    (x : Text) (xs : List Text)
    → All (Lacks 44) (x ∷ xs)
    → split 44 (join (codes ", ") (x ∷ xs)) ≡ x ∷ map (λ s. 32 ∷ s) xs
unfolding join
split-list x [] h = split_piece 44 x h.0
split-list x (y ∷ xs) h =
    split_first 44 x (32 ∷ join (codes ", ") (y ∷ xs)) h.0
    ∙ ap (◌∷◌ x) (behind_blank (join (codes ", ") (y ∷ xs)) y _ (split-list y xs h.1))

unblanked : (xs : List Text) → map unblank (map (λ s. 32 ∷ s) xs) ≡ xs
unfolding unblank
unblanked [] = refl
unblanked (x ∷ xs) = ap (◌∷◌ x) (unblanked xs)

unblank_lem : (s : Text) → Lacks 32 s → unblank s ≡ s
unfolding unblank
unblank_lem [] h = refl
unblank_lem (c ∷ s) h = ground (arith, h.0)

bound_behind_blank :
    (n start : ℕ)
    → map bound_parameters (map (λ s. 32 ∷ s) (placeholder_list n start))
      ≡ map (λ k. k ∷ []) (numbers_from n start)
unfolding placeholder_list
bound_behind_blank zero start = refl
bound_behind_blank (suc n) start = rw (
  bound_parameters-plain (32 ∷ []) (placeholder start) (omega arith),
  Reads-bound_parameters (placeholder start) (start ∷ []) (Reads-placeholder start),
  bound_behind_blank n (start + 1),
)

names-read :
    (x : Text) (xs : List Text)
    → All (Lacks 44) (x ∷ xs)
    → Lacks 32 x
    → map unblank (split 44 (join (codes ", ") (x ∷ xs))) ≡ x ∷ xs
names-read x xs h k = rw (split-list x xs h, unblank_lem x k, unblanked xs)

values-read :
    (n : ℕ)
    → map bound_parameters (split 44 (placeholders (suc n) 1))
      ≡ map (λ k. k ∷ []) (numbers_from (suc n) 1)
unfolding placeholders placeholder_list
values-read n = rw (
  split-list (placeholder 1) (placeholder_list n 2)
      (placeholder_list-Lacks 44 (suc n) 1 (omega arith)),
  Reads-bound_parameters (placeholder 1) (1 ∷ []) (Reads-placeholder 1),
  bound_behind_blank n 2,
)

placeholders-Lacks : (c n : ℕ) → c < 48 → Lacks c (codes ", ") → Lacks c (placeholders n 1)
unfolding placeholders
placeholders-Lacks c n l k =
    Lacks-join c (codes ", ") (placeholder_list n 1) k (placeholder_list-Lacks c n 1 l)

-- The parts of a statement with two pairs of parentheses.
parts :
    (target names values : Text)
    → Lacks 40 target
    → Lacks 41 target
    → Lacks 40 names
    → Lacks 41 names
    → Lacks 40 values
    → Lacks 41 values
    → map
        (split 41)
        (split 40 (target ++ 40 ∷ (names ++ (codes ") VALUES (" ++ (values ++ codes ")")))))
      ≡ (target ∷ []) ∷ (names ∷ codes " VALUES " ∷ []) ∷ (values ∷ [] ∷ []) ∷ []
parts target names values t0 t1 n0 n1 v0 v1 =
    let outer : split 40 (target ++ 40 ∷ (names ++ (codes ") VALUES (" ++ (values ++ codes ")"))))
        ≡ target ∷ (names ++ codes ") VALUES ") ∷ (values ++ codes ")") ∷ [] =
      split_first 40 target _ t0
      ∙ ap (◌∷◌ target) (
          ap (split 40) (sym (append_assoc names (codes ") VALUES ") (40 ∷ (values ++ codes ")"))))
          ∙ split_first 40 (names ++ codes ") VALUES ") (values ++ codes ")")
              (Lacks-append 40 names (codes ") VALUES ") n0 (omega arith))
          ∙ ap (◌∷◌ (names ++ codes ") VALUES ")) (
              split_piece 40 (values ++ codes ")")
                (Lacks-append 40 values (codes ")") v0 (omega arith)))) in
    let middle : split 41 (names ++ codes ") VALUES ") ≡ names ∷ codes " VALUES " ∷ [] =
      split_first 41 names (codes " VALUES ") n1
      ∙ ap (◌∷◌ names) (split_piece 41 (codes " VALUES ") (omega arith)) in
    let last : split 41 (values ++ codes ")") ≡ values ∷ [] ∷ [] =
      split_first 41 values [] v1 ∙ ap (◌∷◌ values) (split_piece 41 [] tt) in
    rw (outer, split_piece 41 target t1, middle, last)

entries :
    (P : Text → Type 0)
    → ((s : Text) → IsEntry s → P s)
    → (columns : List ColumnDef) → All (λ (d : ColumnDef). IsEntry d.name) columns
    → All P (map (λ (d : ColumnDef). d.name) columns)
entries P f [] h = tt
entries P f (c ∷ columns) h = (f c.name h.0, entries P f columns h.1)

-- Over names without blanks, commas and parentheses, an `INSERT` with columns names its table and
-- then the columns in order, and gives the one at each place the parameter of that number.
pub read_insert-insert :
    (table_name : Text) (c : ColumnDef) (columns : List ColumnDef)
    → IsEntry table_name
    → All (λ (d : ColumnDef). IsEntry d.name) (c ∷ columns)
    → read_insert (insert table_name (c ∷ columns)) ≡ record {
      target = codes "INSERT INTO " ++ (table_name ++ codes " ");
      names = map (λ (d : ColumnDef). d.name) (c ∷ columns);
      word = codes " VALUES ";
      values = map (λ k. k ∷ []) (numbers_from (length (c ∷ columns)) 1);
    }
unfolding insert read_insert read_parts column_names
read_insert-insert table_name c columns t h =
    let columns_names = map (λ (d : ColumnDef). d.name) columns in
    let names = join (codes ", ") (c.name ∷ columns_names) in
    let values = placeholders (length (c ∷ columns)) 1 in
    let target = codes "INSERT INTO " ++ (table_name ++ codes " ") in
    let target-Lacks : (x : ℕ)
        → Lacks x (codes "INSERT INTO ")
        → Lacks x table_name
        → Lacks x (codes " ")
        → Lacks x target =
      λ x a b e.
        Lacks-append x (codes "INSERT INTO ") (table_name ++ codes " ") a
          (Lacks-append x table_name (codes " ") b e) in
    ap (λ l. read_parts (map (split 41) (split 40 (codes "INSERT INTO " ++ l))))
      (sym (
        append_assoc table_name (codes " ")
          (40 ∷ (names ++ (codes ") VALUES (" ++ (values ++ codes ")"))))))
    ∙ ap read_parts (
        parts target names values (target-Lacks 40 (omega arith) t.no_left (omega arith))
          (target-Lacks 41 (omega arith) t.no_right (omega arith))
          (Lacks-join 40 (codes ", ") _ (omega arith)
            (entries (Lacks 40) (λ n e. e.no_left) (c ∷ columns) h))
          (Lacks-join 41 (codes ", ") _ (omega arith)
            (entries (Lacks 41) (λ n e. e.no_right) (c ∷ columns) h))
          (placeholders-Lacks 40 (length (c ∷ columns)) (omega arith) (omega arith))
          (placeholders-Lacks 41 (length (c ∷ columns)) (omega arith) (omega arith)))
    ∙ rw (
      names-read c.name columns_names (entries (Lacks 44) (λ n e. e.no_comma) (c ∷ columns) h)
          h.0.unbroken,
      values-read (length columns),
    )
