-- ===== src/Connection/Act.antt =====
-- Code that runs statements on one connection: it returns a result or panics, and leaves a world. What
-- rusqlite does is the record `Sqlite`.
pub mod Reading
use seekwel.Prelude.{ℕ, ◌≡◌, refl, ◌∙◌, Bool, true, false, Option, none, some, List, [], ◌∷◌, Text}
use seekwel.Prelude.Integers.{ℤ}
use seekwel.Errors
use seekwel.Errors.{Error, Result, ok, err, guard}
use seekwel.Connection.Value.{Value, render_value}
use seekwel.Connection.Log.{record_query, record_query_with_params}
use seekwel.Connection.Transaction.{World, Step}

-- `query` is `prepare` and `query_map` before the closure on a row; a row may fail when it is
-- fetched. The other fields are `Row::get` of a column at some type, and `Display` of `f64`.
pub record Sqlite (S R Row D : Type 0) : Type 0 where
  pub execute_batch : Text → D → Result S (Unit {0}) × D
  pub execute : Text → List (Value R) → D → Result S ℕ × D
  pub query : Text → List (Value R) → D → Result S (List (Result S Row))
  pub text_at : ℕ → Row → Result S Text
  pub optional_text_at : ℕ → Row → Result S (Option Text)
  pub integer_at : ℕ → Row → Result S ℤ
  pub no_rows : S
  pub show_real : R → Text

abbrev pub Act : Type 0 → Type 0 → Type 0 → Type 0
Act S D A = Step D (Result S A)

module _ {S D A B : Type 0} where
  abbrev pub then_of :
      (A → Act S D B) → Option (Result S A) × World D → Option (Result S B) × World D
  then_of next (some (ok a), w) = next a w
  then_of next (some (err e), w) = (some (err e), w)
  then_of next (none, w) = (none, w)

  infixl 5 ◌>>=◌
  -- `?`: an error or a panic ends the function.
  unfoldable pub ◌>>=◌ : Act S D A → (A → Act S D B) → Act S D B
  ◌>>=◌ first next w = then_of next (first w)

infixl 5 ◌>>◌
abbrev pub ◌>>◌ : {S D B : Type 0} → Act S D (Unit {0}) → Act S D B → Act S D B
first >> next = first >>= λ _. next

module _ {S D A B : Type 0} (next : A → Act S D B) where
  -- Where `?` went on and the function returned, both parts returned.
  pub then_of-ok :
      (r : Option (Result S A) × World D) (b : B)
      → (then_of next r).0 ≡ some (ok b)
      → (a : A) × (r.0 ≡ some (ok a)) × (then_of next r ≡ next a r.1)
  then_of-ok (some (ok a), w) b h = (a, refl, refl)
  then_of-ok (some (err e), w) b h = cc
  then_of-ok (none, w) b h = cc

-- `Ok(value)`, and `result?` where nothing runs.
unfoldable pub lift : {S D A : Type 0} → Result S A → Act S D A
lift r w = (some r, w)

abbrev pub pure : {S D A : Type 0} → A → Act S D A
pure a = lift (ok a)

unfoldable pub panic : {S D A : Type 0} → Act S D A
panic w = (none, w)

-- `if test { first } else { second }`
unfoldable pub branch : {S D A : Type 0} → Bool → Act S D A → Act S D A → Act S D A
branch true first second = first
branch false first second = second

-- `if !test { return Err(error) }`
abbrev pub require : {S D : Type 0} → Bool → Error S → Act S D (Unit {0})
require test error = lift (guard test error)

-- `let _ = first;` before what the function returns.
abbrev pub after_ignoring :
    {S D A B : Type 0}
    → Option (Result S A) × World D
    → Option (Result S B)
    → Option (Result S B) × World D
after_ignoring (some r, w) value = (value, w)
after_ignoring (none, w) value = (none, w)

module _ {S R Row D : Type 0} (sqlite : Sqlite S R Row D) where
  -- `record_query` and `execute_batch`.
  unfoldable pub run_batch : Text → Act S D (Unit {0})
  run_batch sql w =
      let (result, db) = sqlite.execute_batch sql w.db in
      (some result, record w { log = record_query sql w.log; db = db })

  abbrev logged : Text → List (Value R) → World D → World D
  logged sql params w = record w {
    log = record_query_with_params (render_value sqlite.show_real) sql params w.log;
  }

  -- `record_query_with_params` and `execute`.
  unfoldable pub run_execute : Text → List (Value R) → Act S D ℕ
  run_execute sql params w =
      let (result, db) = sqlite.execute sql params w.db in
      (some result, record (logged sql params w) { db = db })

  -- `for row in rows { values.push(row?) }`
  unfoldable pub collect_rows :
      {A : Type 0} → (Row → Result S A) → List (Result S Row) → Result S (List A)
  collect_rows decode [] = ok []
  collect_rows decode (row ∷ rows) =
      let rest = collect_rows decode rows in
      Errors.◌>>=◌ (Errors.◌>>=◌ row decode)
        λ value. Errors.◌>>=◌ rest λ values. ok (value ∷ values)

  -- `prepare` and `query_map`, with the query in the log. Without parameters,
  -- `record_query_with_params` does what `record_query` does.
  unfoldable pub query_rows : Text → List (Value R) → Act S D (List (Result S Row))
  query_rows sql params w = (some (sqlite.query sql params w.db), logged sql params w)

  -- All rows of a query, with the closure on each.
  unfoldable pub query_all :
      {A : Type 0} → Text → List (Value R) → (Row → Result S A) → Act S D (List A)
  unfolding collect_rows
  query_all sql params decode = query_rows sql params >>= λ rows. lift (collect_rows decode rows)

  unfoldable pub first_row :
      {A : Type 0} → (Row → Result S A) → List (Result S Row) → Result S (Option A)
  first_row decode [] = ok none
  first_row decode (row ∷ rows) = Errors.◌>>=◌ (Errors.◌>>=◌ row decode) λ value. ok (some value)

  -- `query_row` and `optional`.
  unfoldable pub query_optional :
      {A : Type 0} → Text → List (Value R) → (Row → Result S A) → Act S D (Option A)
  unfolding first_row
  query_optional sql params decode = query_rows sql params >>= λ rows. lift (first_row decode rows)

  unfoldable pub found_row : {A : Type 0} → Option A → Result S A
  found_row none = err (Error.sqlite sqlite.no_rows)
  found_row (some a) = ok a

  -- `query_row`.
  unfoldable pub query_row : {A : Type 0} → Text → List (Value R) → (Row → Result S A) → Act S D A
  unfolding found_row query_optional
  query_row sql params decode = query_optional sql params decode >>= λ found. lift (found_row found)
