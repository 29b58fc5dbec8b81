-- ===== src/Model/Validation.antt =====
-- The error collection and the errors of saves in src/model/validation.rs. `C` is a column.
use seekwel.Prelude.{
  Bool, true, false, Option, none, some, List, [], ◌∷◌, ◌++◌, map, Text, codes, if◌then◌else◌,
}
use seekwel.Errors.{Error, invalid_model}
use seekwel.Model.Record.{SaveError, invalid, error}

pub record ValidationError (C : Type 0) : Type 0 where
  pub column : Option C
  pub message : Text

module _ {C : Type 0} where
  -- `Errors::add`
  unfoldable pub add : C → Text → List (ValidationError C) → List (ValidationError C)
  add column message errors = errors ++ record { column = some column; message = message } ∷ []

  unfoldable pub add_base : Text → List (ValidationError C) → List (ValidationError C)
  add_base message errors = errors ++ record { column = none; message = message } ∷ []

  -- The message, if the error is on the column.
  on_of : (C → C → Bool) → C → Option C → Text → List Text
  on_of same column none message = []
  on_of same column (some c) message = if same c column then message ∷ [] else []

  base_of : Option C → Text → List Text
  base_of none message = message ∷ []
  base_of (some c) message = []

  full_of : (C → Text) → Option C → Text → Text
  full_of name none message = message
  full_of name (some c) message = name c ++ (codes " " ++ message)

  -- `filter_map`
  collect_messages : (ValidationError C → List Text) → List (ValidationError C) → List Text
  collect_messages f [] = []
  collect_messages f (e ∷ es) = f e ++ collect_messages f es

  unfoldable pub messages_on : (C → C → Bool) → C → List (ValidationError C) → List Text
  unfolding on_of collect_messages
  messages_on same column = collect_messages (λ e. on_of same column e.column e.message)

  unfoldable pub messages_base : List (ValidationError C) → List Text
  unfolding base_of collect_messages
  messages_base = collect_messages (λ e. base_of e.column e.message)

  unfoldable pub full_messages : (C → Text) → List (ValidationError C) → List Text
  unfolding full_of
  full_messages name = map (λ (e : ValidationError C). full_of name e.column e.message)

pub data CreateOrUpdateError (S N P : Type 0) : Type 0 where
  invalid_new : N → CreateOrUpdateError S N P
  invalid_persisted : P → CreateOrUpdateError S N P
  other : Error S → CreateOrUpdateError S N P

-- `Error::from` of the errors of a save.
unfoldable pub error_of_save : {S M : Type 0} → SaveError S M → Error S
error_of_save (invalid m) = invalid_model (codes "validation failed")
error_of_save (error e) = e

unfoldable pub error_of_create : {S N P : Type 0} → CreateOrUpdateError S N P → Error S
error_of_create (invalid_new m) = invalid_model (codes "validation failed")
error_of_create (invalid_persisted m) = invalid_model (codes "validation failed")
error_of_create (other e) = e

unfoldable pub is_invalid_save : {S M : Type 0} → SaveError S M → Bool
is_invalid_save (invalid m) = true
is_invalid_save (error e) = false

unfoldable pub into_invalid_save : {S M : Type 0} → SaveError S M → Option M
into_invalid_save (invalid m) = some m
into_invalid_save (error e) = none

unfoldable pub is_invalid_create : {S N P : Type 0} → CreateOrUpdateError S N P → Bool
is_invalid_create (invalid_new m) = true
is_invalid_create (invalid_persisted m) = true
is_invalid_create (other e) = false

unfoldable pub into_invalid_new : {S N P : Type 0} → CreateOrUpdateError S N P → Option N
into_invalid_new (invalid_new m) = some m
into_invalid_new (invalid_persisted m) = none
into_invalid_new (other e) = none

unfoldable pub into_invalid_persisted : {S N P : Type 0} → CreateOrUpdateError S N P → Option P
into_invalid_persisted (invalid_new m) = none
into_invalid_persisted (invalid_persisted m) = some m
into_invalid_persisted (other e) = none

unfoldable pub display_save : {S M : Type 0} → (Error S → Text) → SaveError S M → Text
display_save show (invalid m) = codes "validation failed"
display_save show (error e) = show e

unfoldable pub display_create :
    {S N P : Type 0} → (Error S → Text) → CreateOrUpdateError S N P → Text
display_create show (invalid_new m) = codes "validation failed"
display_create show (invalid_persisted m) = codes "validation failed"
display_create show (other e) = show e
