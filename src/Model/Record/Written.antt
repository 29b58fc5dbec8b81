-- ===== src/Model/Record/Written.antt =====
-- A method that reports a success has changed a row.
use seekwel.Prelude.{
  ℕ, zero, suc, ◌≡◌, refl, ap, sym, ◌∙◌, true, false, not, eqb, Option, none, some, List, [], ◌∷◌,
  ◌++◌, Text, inl, inr, Bool-cases,
}
use seekwel.Errors.{Result, ok, err, not_initialized}
use seekwel.Errors
use seekwel.Connection.Value.{Value}
use seekwel.Connection.Log.{QueryLog}
use seekwel.Connection.Transaction.{World}
use seekwel.Connection.Access.{with_write, get-with_write, get-closed}
use seekwel.Connection.Act.{Sqlite, then_of, ◌>>=◌, lift, require, run_execute}
use seekwel.Query.Plan.{ModelInfo}
use seekwel.Sql.Mutation.{update_by_primary_key}
use seekwel.Model.Record.{saved, map_error, PersistedModel, change_row, save_checked, save_record}

module _ {S R Row D : Type 0} (sqlite : Sqlite S R Row D) (info : ModelInfo) where
  changed_lem :
      (r : Result S ℕ × D) (w : World D) (log : QueryLog)
      → let after : Option (Result S (Unit {0})) × World D =
          then_of
            (λ changed. require (not (eqb changed 0)) (Errors.sqlite sqlite.no_rows))
            (some r.0, record w { log = log; db = r.1 }) in
        after.0 ≡ some (ok tt) → (n : ℕ) × (r ≡ (ok (suc n), after.1.db))
  unfolding lift
  changed_lem (ok zero, d) w log h = cc
  changed_lem (ok (suc n), d) w log h = (n, refl)
  changed_lem (err e, d) w log h = cc

  closed_lem :
      (sql : Text) (params : List (Value R)) (w : World D)
      → w.initialized ≡ false
      → change_row sqlite info sql params w ≡ (some (err not_initialized), w)
  unfolding change_row ◌>>=◌
  closed_lem sql params w e =
      ap (then_of (λ changed. require (not (eqb changed 0)) (Errors.sqlite sqlite.no_rows)))
        (get-closed (with_write (run_execute sqlite sql params)) w e)

  opened_lem :
      (sql : Text) (params : List (Value R)) (w : World D)
      → w.initialized ≡ true
      → change_row sqlite info sql params w
        ≡ (run_execute sqlite sql params >>= λ changed.
              require (not (eqb changed 0)) (Errors.sqlite sqlite.no_rows))
            w
  unfolding change_row ◌>>=◌
  opened_lem sql params w e =
      ap (then_of (λ changed. require (not (eqb changed 0)) (Errors.sqlite sqlite.no_rows)))
        (get-with_write (run_execute sqlite sql params) w e)

  -- A change that succeeds has run its statement on the database, and changed a row.
  pub change_row-ok :
      (sql : Text) (params : List (Value R)) (w : World D)
      → (change_row sqlite info sql params w).0 ≡ some (ok tt)
      → (n : ℕ) × (sqlite.execute sql params w.db
          ≡ (ok (suc n), (change_row sqlite info sql params w).1.db))
  unfolding run_execute ◌>>=◌
  change_row-ok sql params w h = elim (Bool-cases w.initialized) [
    | inl e ↦
        (let ran = opened_lem sql params w e in
          let (n, k) =
            changed_lem (sqlite.execute sql params w.db) w _ (sym (ap (λ r. r.0) ran) ∙ h) in
          (n, k ∙ ap (λ d. (ok (suc n), d)) (ap (λ r. r.1.db) (sym ran))))
    | inr e ↦ absurd (let k = closed_lem sql params w e in cc)
  ]

  map_error-saved :
      {I : Type 0} (r : Option (Result S (Unit {0})) × World D)
      → (map_error {M = I} r).0 ≡ some (saved tt)
      → (r.0 ≡ some (ok tt)) × ((map_error {M = I} r).1 ≡ r.1)
  map_error-saved (some (ok tt), w) h = (refl, refl)
  map_error-saved (some (err e), w) h = cc
  map_error-saved (none, w) h = cc

  module _ {C M I : Type 0} (model : PersistedModel S R Row C M I) where
    abbrev update_sql : Text
    update_sql = update_by_primary_key info.table_name info.primary_key info.columns

    save_checked-saved :
        (errors : List C) (m : M) (w : World D)
        → (save_checked sqlite info model errors m w).0 ≡ some (saved tt)
        → (errors ≡ [])
          × (n : ℕ) × (sqlite.execute update_sql
                (model.params m ++ model.primary_key_value m ∷ [])
                w.db
              ≡ (ok (suc n), (save_checked sqlite info model errors m w).1.db))
    unfolding save_checked
    save_checked-saved (e ∷ es) m w h = cc
    save_checked-saved [] m w h =
        let (done, same) = map_error-saved _ h in
        let (n, k) =
          change_row-ok update_sql (model.params m ++ model.primary_key_value m ∷ []) w done in
        (refl, n, k ∙ ap (λ (v : World D). (ok (suc n), v.db)) (sym same))

    -- A save that reports success had no validation error, and ran the UPDATE of the model's row with
    -- its parameters and its key on the database, which changed a row and left what the save leaves.
    pub save_record-saved :
        (m : M) (w : World D)
        → (save_record sqlite info model m w).0 ≡ some (saved tt)
        → (model.validation_errors m ≡ [])
          × (n : ℕ) × (sqlite.execute
                (update_by_primary_key info.table_name info.primary_key info.columns)
                (model.params m ++ model.primary_key_value m ∷ [])
                w.db
              ≡ (ok (suc n), (save_record sqlite info model m w).1.db))
    unfolding save_record
    save_record-saved m w h = save_checked-saved (model.validation_errors m) m w h
