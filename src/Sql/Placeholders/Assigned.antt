-- ===== src/Sql/Placeholders/Assigned.antt =====
-- What an `UPDATE` assigns, read from its text: words between blanks, three for each assignment.
use seekwel.Prelude.{
  ℕ, ◌+◌, ◌≤◌, ◌<◌, ◌≡◌, refl, sym, ap, ◌∙◌, false, List, [], ◌∷◌, ◌++◌, map, Text, codes, join,
  split, split_first, split_piece, length, Lacks, All, append_assoc, append-nil, ◌==◌, eq_refl,
  arith, if◌then◌else◌,
}
use seekwel.Prelude.Decimal.{decimal, decimal_are_digits}
use seekwel.Model.Types.{ColumnDef, PrimaryKeyDef}
use seekwel.Sql.Render.{placeholder, assignment_list, assignments}
use seekwel.Sql.Mutation.{update_by_primary_key}
use seekwel.Sql.Placeholders.{
  bound_parameters, Reads-bound_parameters, Reads-placeholder, Reads-of_Lacks, is_digit,
}

-- A name, the sign behind it, and the parameters that the value asks for.
abbrev pub Assignment : Type 0
Assignment = Text × Text × List ℕ

-- The assignments up to `WHERE`, and the name, the sign and the values of the condition behind it.
pub record Assigned : Type 0 where
  pub sets : List Assignment
  pub name : Text
  pub sign : Text
  pub values : List (List ℕ)

unfoldable pub read_assignments : List Text → Assigned
read_assignments (name ∷ sign ∷ value ∷ rest) =
    let more = read_assignments rest in
    if name == codes "WHERE"
    then record { sets = []; name = sign; sign = value; values = map bound_parameters rest }
    else record more { sets = (name, sign, bound_parameters value) ∷ more.sets }
read_assignments _ = record { sets = []; name = []; sign = []; values = [] }

-- The three words of `UPDATE table SET`, and what is read behind them.
read_words : List Text → List Text × Assigned
unfolding read_assignments
read_words (a ∷ b ∷ c ∷ rest) = (a ∷ b ∷ c ∷ [], read_assignments rest)
read_words words = (words, read_assignments [])

unfoldable pub read_update : Text → List Text × Assigned
unfolding read_words
read_update sql = read_words (split 32 sql)

-- A name without blanks and question marks that is not `WHERE`.
pub record IsName (name : Text) : Type 0 where
  pub unbroken : Lacks 32 name
  pub plain : Lacks b'?' name
  pub column : (name == codes "WHERE") ≡ false

-- Each column with its own parameter.
unfoldable pub numbered : List ColumnDef → ℕ → List Assignment
numbered [] start = []
numbered (c ∷ columns) start = (c.name, codes "=", start ∷ []) ∷ numbered columns (start + 1)

digits-Lacks : (s : Text) → All (λ c. (48 ≤ c) × (c < 58)) s → Lacks 32 s
digits-Lacks [] h = tt
digits-Lacks (c ∷ s) h = ((λ e. omega (arith, h.0.0, e)), digits-Lacks s h.1)

placeholder-Lacks : (n : ℕ) → Lacks 32 (placeholder n)
unfolding placeholder
placeholder-Lacks n = ((λ e. omega arith), digits-Lacks (decimal n) (decimal_are_digits n))

Lacks-comma : (s : Text) → Lacks 32 s → Lacks 32 (s ++ 44 ∷ [])
Lacks-comma [] h = ((λ e. omega arith), tt)
Lacks-comma (c ∷ s) h = (h.0, Lacks-comma s h.1)

-- The words of one assignment.
split-assignment :
    (name value rest : Text)
    → Lacks 32 name
    → Lacks 32 value
    → split 32 ((name ++ (codes " = " ++ value)) ++ 32 ∷ rest)
      ≡ name ∷ codes "=" ∷ value ∷ split 32 rest
split-assignment name value rest h k =
    ap (split 32) (append_assoc name (codes " = " ++ value) (32 ∷ rest))
    ∙ split_first 32 name (61 ∷ 32 ∷ (value ++ 32 ∷ rest)) h
    ∙ ap (◌∷◌ name) (
        split_first 32 (codes "=") (value ++ 32 ∷ rest) (omega arith)
        ∙ ap (◌∷◌ (codes "=")) (split_first 32 value rest k))

read-assignment :
    (name value rest : Text) (ns : List ℕ)
    → IsName name
    → Lacks 32 value
    → bound_parameters value ≡ ns
    → let tail = read_assignments (split 32 rest) in
      read_assignments (split 32 ((name ++ (codes " = " ++ value)) ++ 32 ∷ rest))
      ≡ record tail { sets = (name, codes "=", ns) ∷ tail.sets }
unfolding read_assignments
read-assignment name value rest ns h k e =
    ap read_assignments (split-assignment name value rest h.unbroken k) ∙ rw h.column (rw e refl)

bound-placeholder : (n : ℕ) → bound_parameters (placeholder n) ≡ n ∷ []
bound-placeholder n = Reads-bound_parameters (placeholder n) (n ∷ []) (Reads-placeholder n)

bound-comma : (n : ℕ) → bound_parameters (placeholder n ++ 44 ∷ []) ≡ n ∷ []
bound-comma n =
    Reads-placeholder n (44 ∷ []) (unfold is_digit in refl) ∙ (unfold bound_parameters in refl)

-- The text of an assignment before a comma and a blank.
comma :
    (name value more : Text)
    → (name ++ (codes " = " ++ value)) ++ (44 ∷ 32 ∷ more)
      ≡ (name ++ (codes " = " ++ (value ++ 44 ∷ []))) ++ 32 ∷ more
comma name value more =
    append_assoc name (codes " = " ++ value) (44 ∷ 32 ∷ more)
    ∙ ap (λ t. name ++ (codes " = " ++ t)) (sym (append_assoc value (44 ∷ []) (32 ∷ more)))
    ∙ sym (append_assoc name (codes " = " ++ (value ++ 44 ∷ [])) (32 ∷ more))

read-assignments :
    (c : ColumnDef) (columns : List ColumnDef) (start : ℕ) (rest : Text)
    → All (λ (c : ColumnDef). IsName c.name) (c ∷ columns)
    → let tail = read_assignments (split 32 rest) in
      read_assignments (split 32 (assignments (c ∷ columns) start ++ 32 ∷ rest))
      ≡ record tail { sets = numbered (c ∷ columns) start ++ tail.sets }
unfolding assignments assignment_list join numbered
read-assignments c [] start rest h =
    read-assignment c.name (placeholder start) rest (start ∷ []) h.0 (placeholder-Lacks start)
      (bound-placeholder start)
read-assignments c (d ∷ columns) start rest h =
    let more = assignments (d ∷ columns) (start + 1) in
    ap (λ t. read_assignments (split 32 t))
      (append_assoc (c.name ++ (codes " = " ++ placeholder start)) (44 ∷ 32 ∷ more) (32 ∷ rest)
        ∙ comma c.name (placeholder start) (more ++ 32 ∷ rest))
    ∙ read-assignment c.name (placeholder start ++ 44 ∷ []) (more ++ 32 ∷ rest) (start ∷ []) h.0
        (Lacks-comma (placeholder start) (placeholder-Lacks start)) (bound-comma start)
    ∙ ap (λ (r : Assigned). record r { sets = (c.name, codes "=", start ∷ []) ∷ r.sets })
        (read-assignments d columns (start + 1) rest h.1)

-- What an `UPDATE` without columns assigns: the key, to itself.
unfoldable pub sets_of : Text → List ColumnDef → List Assignment
unfolding numbered
sets_of key [] = (key, codes "=", []) ∷ []
sets_of key (c ∷ columns) = numbered (c ∷ columns) 1

-- The condition on the key.
read-condition :
    (key : Text) (n : ℕ)
    → IsName key
    → read_assignments (split 32 (codes "WHERE " ++ (key ++ (codes " = " ++ placeholder n))))
      ≡ record { sets = []; name = key; sign = codes "="; values = (n ∷ []) ∷ [] }
unfolding read_assignments
read-condition key n h =
    ap read_assignments (
      split_first 32 (codes "WHERE") (key ++ (codes " = " ++ placeholder n)) (omega arith)
      ∙ ap (◌∷◌ (codes "WHERE")) (
          split_first 32 key (codes "= " ++ placeholder n) h.unbroken
          ∙ ap (◌∷◌ key) (
              split_first 32 (codes "=") (placeholder n) (omega arith)
              ∙ ap (◌∷◌ (codes "=")) (split_piece 32 (placeholder n) (placeholder-Lacks n)))))
    ∙ rw (eq_refl (codes "WHERE")) (rw (bound-placeholder n) refl)

read-update :
    (table body : Text)
    → Lacks 32 table
    → read_update (codes "UPDATE " ++ (table ++ (codes " SET " ++ body)))
      ≡ (codes "UPDATE" ∷ table ∷ codes "SET" ∷ [], read_assignments (split 32 body))
unfolding read_update read_words
read-update table body h =
    let words : split 32 (codes "UPDATE " ++ (table ++ (codes " SET " ++ body)))
        ≡ codes "UPDATE" ∷ table ∷ codes "SET" ∷ split 32 body =
      split_first 32 (codes "UPDATE") (table ++ (codes " SET " ++ body)) (omega arith)
      ∙ ap (◌∷◌ (codes "UPDATE")) (
          split_first 32 table (codes "SET " ++ body) h
          ∙ ap (◌∷◌ table) (split_first 32 (codes "SET") body (omega arith))) in
    ap read_words words

-- Over names without blanks and question marks that are not `WHERE`, an `UPDATE` reads as one of its
-- table that gives each column, in order, the parameter of its number, and without columns the key
-- to itself, where the key is the one parameter behind those of the columns.
pub read_update-update_by_primary_key :
    (table_name : Text) (primary_key : PrimaryKeyDef) (columns : List ColumnDef)
    → Lacks 32 table_name
    → IsName primary_key.name
    → All (λ (c : ColumnDef). IsName c.name) columns
    → read_update (update_by_primary_key table_name primary_key columns) ≡ (
      codes "UPDATE" ∷ table_name ∷ codes "SET" ∷ [],
      record {
        sets = sets_of primary_key.name columns;
        name = primary_key.name;
        sign = codes "=";
        values = ((length columns + 1) ∷ []) ∷ [];
      },
    )
unfolding update_by_primary_key sets_of placeholder decimal
read_update-update_by_primary_key table_name primary_key [] t k h =
    let key = primary_key.name in
    let condition = codes "WHERE " ++ (key ++ (codes " = " ++ placeholder 1)) in
    read-update table_name (key ++ (codes " = " ++ (key ++ 32 ∷ condition))) t
    ∙ ap (λ r. (codes "UPDATE" ∷ table_name ∷ codes "SET" ∷ [], r))
        (ap (λ l. read_assignments (split 32 l))
            (sym (append_assoc key (codes " = " ++ key) (32 ∷ condition)))
          ∙ read-assignment key key condition [] k k.unbroken
              (Reads-bound_parameters key [] (Reads-of_Lacks key k.plain))
          ∙ ap (λ (r : Assigned). record r { sets = (key, codes "=", []) ∷ r.sets })
              (read-condition key 1 k))
read_update-update_by_primary_key table_name primary_key (c ∷ columns) t k h =
    let n = length (c ∷ columns) in
    let condition = codes "WHERE " ++ (primary_key.name ++ (codes " = " ++ placeholder (n + 1))) in
    read-update table_name (assignments (c ∷ columns) 1 ++ 32 ∷ condition) t
    ∙ ap (λ r. (codes "UPDATE" ∷ table_name ∷ codes "SET" ∷ [], r))
        (read-assignments c columns 1 condition h
          ∙ ap (λ (r : Assigned). record r { sets = numbered (c ∷ columns) 1 ++ r.sets })
              (read-condition primary_key.name (n + 1) k)
          ∙ ap
              (λ (l : List Assignment).
                let r : Assigned = record {
                  sets = l;
                  name = primary_key.name;
                  sign = codes "=";
                  values = ((n + 1) ∷ []) ∷ [];
                } in
                r)
              (append-nil (numbered (c ∷ columns) 1)))
