-- ===== src/Model/Association/HasMany.antt =====
-- `HasMany` of src/model/association/has_many.rs. A method on `&self` that changes the cache returns
-- the association too; the lock of the cache is left out. The handlers, which the macro generates, are
-- fields. An append of the macro runs statements and does not reach the association.
pub mod Cache
use seekwel.Prelude.{ℕ, Bool, true, false, eqb, Option, none, some, List, [], ◌∷◌, ◌++◌, codes}
use seekwel.Errors.{Error, invalid_association, Result, ok, err}
use seekwel.Errors
use seekwel.Connection.Value.{Value}
use seekwel.Connection.Transaction.{World}
use seekwel.Connection.Act.{Sqlite, Act, ◌>>=◌, lift}
use seekwel.Query.Plan.{ModelInfo, Query}
use seekwel.Query.Run
use seekwel.Model.Association.HasManyQuery.{HasManyQuery, new_scoped, scoped_plan}

pub record HasManyHandlers (S V D Child Builder : Type 0) : Type 0 where
  pub query_for_parent : ℕ → Result S (Query V)
  pub append_for_parent : ℕ → Builder → Act S D Child

pub record HasMany (S V D Child Builder : Type 0) : Type 0 where
  pub parent_id : Option ℕ
  pub handlers : HasManyHandlers S V D Child Builder
  pub cached : Option (List Child)

missing_error : {S : Type 0} → Error S
missing_error =
    invalid_association (codes "HasMany association was not initialized by seekwel::model")

parent_of : {S : Type 0} → Option ℕ → Result S ℕ
parent_of (some id) = ok id
parent_of none =
    err
      (invalid_association (codes "HasMany association is not bound to a persisted parent record"))

-- `children.push(child.clone())`, if there are children.
push_cached : {Child : Type 0} → Child → Option (List Child) → Option (List Child)
push_cached child none = none
push_cached child (some children) = some (children ++ child ∷ [])

module _ {S V D Child Builder : Type 0} where
  -- `HasManyHandlers::missing`
  unfoldable pub missing : HasManyHandlers S V D Child Builder
  unfolding missing_error
  missing = record {
    query_for_parent = λ id. err missing_error;
    append_for_parent = λ id builder. lift (err missing_error);
  }

  unfoldable pub new_unbound : HasManyHandlers S V D Child Builder → HasMany S V D Child Builder
  new_unbound handlers = record { parent_id = none; handlers = handlers; cached = none }

  unfoldable pub new_bound : ℕ → HasManyHandlers S V D Child Builder → HasMany S V D Child Builder
  new_bound id handlers = record { parent_id = some id; handlers = handlers; cached = none }

  unfoldable pub clear_cache : HasMany S V D Child Builder → HasMany S V D Child Builder
  clear_cache h = record h { cached = none }

  bound_again : HasManyHandlers S V D Child Builder → Option ℕ → HasMany S V D Child Builder
  unfolding new_bound new_unbound
  bound_again handlers (some id) = new_bound id handlers
  bound_again handlers none = new_unbound handlers

  -- The clone has no cache.
  unfoldable pub clone : HasMany S V D Child Builder → HasMany S V D Child Builder
  unfolding bound_again
  clone h = bound_again h.handlers h.parent_id

  unfoldable pub require_parent_id : HasMany S V D Child Builder → Result S ℕ
  unfolding parent_of
  require_parent_id h = parent_of h.parent_id

  unfoldable pub scope_of : HasMany S V D Child Builder → Result S (Query V)
  unfolding require_parent_id
  scope_of h = Errors.◌>>=◌ (require_parent_id h) h.handlers.query_for_parent

  -- `query`
  unfoldable pub query : HasMany S V D Child Builder → HasManyQuery S V
  unfolding scope_of new_scoped
  query h = new_scoped (scope_of h)

  after_append :
      HasMany S V D Child Builder
      → Option (Result S Child) × World D
      → Option (Result S Child) × World D × HasMany S V D Child Builder
  unfolding push_cached
  after_append h (some (ok child), w) =
      (some (ok child), w, record h { cached = push_cached child h.cached })
  after_append h (some (err e), w) = (some (err e), w, h)
  after_append h (none, w) = (none, w, h)

  unfoldable pub append :
      Builder
      → HasMany S V D Child Builder
      → World D
      → Option (Result S Child) × World D × HasMany S V D Child Builder
  unfolding after_append require_parent_id
  append builder h w =
      after_append h
        ((lift (require_parent_id h) >>= λ id. h.handlers.append_for_parent id builder) w)

module _ {S R Row D Child Builder : Type 0} (sqlite : Sqlite S R Row D) (model : ModelInfo)
    (from_row : Row → Result S Child) where
  after_load :
      HasMany S (Value R) D Child Builder
      → Option (Result S (List Child)) × World D
      → Option (Result S (List Child)) × World D × HasMany S (Value R) D Child Builder
  after_load h (some (ok children), w) =
      (some (ok children), w, record h { cached = some children })
  after_load h (some (err e), w) = (some (err e), w, h)
  after_load h (none, w) = (none, w, h)

  load_with :
      Option (List Child)
      → HasMany S (Value R) D Child Builder
      → World D
      → Option (Result S (List Child)) × World D × HasMany S (Value R) D Child Builder
  unfolding after_load query
  load_with (some children) h w = (some (ok children), w, h)
  load_with none h w = after_load h (Run.all sqlite from_row (scoped_plan model (query h)) w)

  unfoldable pub load :
      HasMany S (Value R) D Child Builder
      → World D
      → Option (Result S (List Child)) × World D × HasMany S (Value R) D Child Builder
  unfolding load_with
  load h w = load_with h.cached h w
