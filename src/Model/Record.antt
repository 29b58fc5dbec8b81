-- ===== src/Model/Record.antt =====
-- The methods of `Model`, `NewModel` and `PersistedModel` in src/model/mod.rs that run statements. What
-- the macro generates for a model is a record of functions.
pub mod Written
use seekwel.Prelude.{
  ℕ, Bool, true, false, not, eqb, Option, none, some, List, [], ◌∷◌, ◌++◌, is_empty, Text,
}
use seekwel.Prelude.Integers.{ℤ}
use seekwel.Errors.{Error, Result, ok, err}
use seekwel.Errors
use seekwel.Connection.Value.{Value}
use seekwel.Connection.Transaction.{World}
use seekwel.Connection.Access
use seekwel.Connection.Access.{with_read, with_write}
use seekwel.Connection.Act.{Sqlite, Act, ◌>>=◌, ◌>>◌, lift, pure, require, run_execute, query_row}
use seekwel.Model.Types.{ColumnDef, IndexDef}
use seekwel.Query.Plan.{ModelInfo}
use seekwel.Query.Run.{as_u64}
use seekwel.Sql.Ddl
use seekwel.Sql.Mutation
use seekwel.Sql.Mutation.{update_by_primary_key, delete_by_primary_key}
use seekwel.Sql.Select.{select_by_primary_key}

-- `SaveError<M>`, and the `Result` that carries it.
pub data SaveError (S M : Type 0) : Type 0 where
  invalid : M → SaveError S M
  error : Error S → SaveError S M

pub data Saved (S M A : Type 0) : Type 0 where
  saved : A → Saved S M A
  not_saved : SaveError S M → Saved S M A

-- `map_err(SaveError::Error)`
abbrev pub map_error :
    {S M A D : Type 0} → Option (Result S A) × World D → Option (Saved S M A) × World D
map_error (some (ok a), w) = (some (saved a), w)
map_error (some (err e), w) = (some (not_saved (error e)), w)
map_error (none, w) = (none, w)

-- What a persisted model says of itself: `C` is a validation error, `M` the model, `I` its invalid
-- form.
pub record PersistedModel (S R Row C M I : Type 0) : Type 0 where
  pub validation_errors : M → List C
  pub to_invalid : M → List C → I
  pub params : M → List (Value R)
  pub primary_key_value : M → Value R
  pub from_row : Row → Result S M

-- What a new model says of itself: `P` is its persisted form.
pub record NewModel (S R C M P I : Type 0) : Type 0 where
  pub validation_errors : M → List C
  pub into_invalid : M → List C → I
  pub insert_params : M → List (Value R)
  pub into_persisted : M → ℕ → Result S P

module _ {S R Row D : Type 0} (sqlite : Sqlite S R Row D) (info : ModelInfo) where
  create_indexes : List IndexDef → Act S D (Unit {0})
  create_indexes [] = pure tt
  create_indexes (index ∷ indexes) =
      with_write (run_execute sqlite (Ddl.create_index info.table_name index) []) >>= λ changed.
      create_indexes indexes

  -- `Model::create_table`
  unfoldable pub create_table : List IndexDef → Act S D (Unit {0})
  unfolding create_indexes
  create_table indexes =
      Access.get
      >> with_write
          (run_execute sqlite (Ddl.create_table info.table_name info.primary_key info.columns) [])
      >>= λ changed. create_indexes indexes

  -- `conn.last_insert_rowid() as u64`
  inserted_id : (D → ℤ) → Act S D ℕ
  unfolding as_u64
  inserted_id last_insert_rowid w = (some (ok (as_u64 (last_insert_rowid w.db))), w)

  -- `insert`, with `Connection::insert`.
  unfoldable pub insert_record : (D → ℤ) → List ColumnDef → List (Value R) → Act S D ℕ
  unfolding inserted_id
  insert_record last_insert_rowid columns params =
      Access.get
      >> with_write (
          run_execute sqlite (Mutation.insert info.table_name columns) params >>= λ changed.
          inserted_id last_insert_rowid)

  -- A statement that has to change a row.
  unfoldable pub change_row : Text → List (Value R) → Act S D (Unit {0})
  change_row sql params = Access.get >> with_write (run_execute sqlite sql params) >>= λ changed.
      require (not (eqb changed 0)) (Errors.sqlite sqlite.no_rows)

  module _ {C M I : Type 0} (model : PersistedModel S R Row C M I) where
    unfoldable pub find_record : Value R → Act S D M
    find_record key =
        Access.get
        >> with_read (
            query_row sqlite (select_by_primary_key info.table_name info.primary_key info.columns)
              (key ∷ []) model.from_row)

    save_checked : List C → M → World D → Option (Saved S I (Unit {0})) × World D
    unfolding change_row
    save_checked (e ∷ es) m w = (some (not_saved (invalid (model.to_invalid m (e ∷ es)))), w)
    save_checked [] m w = map_error (
        change_row (update_by_primary_key info.table_name info.primary_key info.columns)
          (model.params m ++ model.primary_key_value m ∷ []) w)

    -- `PersistedModel::save`
    unfoldable pub save_record : M → World D → Option (Saved S I (Unit {0})) × World D
    unfolding save_checked
    save_record m w = save_checked (model.validation_errors m) m w

    -- `reload`, which returns the model that it leaves.
    unfoldable pub reload_record : M → Act S D M
    unfolding find_record
    reload_record m = find_record (model.primary_key_value m)

    unfoldable pub delete_record : M → Act S D (Unit {0})
    unfolding change_row
    delete_record m =
        change_row (delete_by_primary_key info.table_name info.primary_key)
          (model.primary_key_value m ∷ [])

  module _ {C M P I : Type 0} (last_insert_rowid : D → ℤ) (columns : List ColumnDef)
      (model : NewModel S R C M P I) where
    create_checked : List C → M → World D → Option (Saved S I P) × World D
    unfolding insert_record
    create_checked (e ∷ es) m w = (some (not_saved (invalid (model.into_invalid m (e ∷ es)))), w)
    create_checked [] m w = map_error (
        (insert_record last_insert_rowid columns (model.insert_params m) >>= λ id.
        lift (model.into_persisted m id))
          w)

    -- `NewModel::save`
    unfoldable pub create_record : M → World D → Option (Saved S I P) × World D
    unfolding create_checked
    create_record m w = create_checked (model.validation_errors m) m w
