-- ===== src/Errors.antt =====
-- src/error.rs: the errors of every operation, and the results that carry them.
use seekwel.Prelude.{◌≡◌, refl, Bool, true, false, Text, codes, ◌++◌}

-- `S` stands for `rusqlite::Error`.
pub data Error (S : Type 0) : Type 0 where
  sqlite : S → Error S
  rollback already_initialized not_initialized : Error S
  missing_field invalid_model invalid_query invalid_params : Text → Error S
  invalid_association invalid_schema schema_blocked schema_drift : Text → Error S

-- The `Display` implementation, over the one of `rusqlite::Error`.
unfoldable pub display : {S : Type 0} → (S → Text) → Error S → Text
display show (sqlite e) = show e
display show rollback = codes "Transaction rolled back"
display show already_initialized = codes "Connection already initialized"
display show not_initialized = codes "Connection not initialized"
display show (missing_field field) = codes "Missing required field: " ++ field
display show (invalid_model message) = codes "Invalid model: " ++ message
display show (invalid_query message) = codes "Invalid query: " ++ message
display show (invalid_params message) = codes "Invalid params: " ++ message
display show (invalid_association message) = codes "Invalid association: " ++ message
display show (invalid_schema message) = codes "Invalid schema: " ++ message
display show (schema_blocked message) = codes "Schema plan blocked: " ++ message
display show (schema_drift message) = codes "Schema drift detected: " ++ message

pub data Result (S A : Type 0) : Type 0 where
  ok : A → Result S A
  err : Error S → Result S A

-- `if !test { return Err(error) }`
abbrev pub guard : {S : Type 0} → Bool → Error S → Result S (Unit {0})
guard false error = err error
guard true error = ok tt

infixl 5 ◌>>=◌ ◌>>◌
-- `?`: an error ends the function.
abbrev pub ◌>>=◌ : {S A B : Type 0} → Result S A → (A → Result S B) → Result S B
err error >>= next = err error
ok value >>= next = next value

-- `?` on a result that carries nothing.
abbrev pub ◌>>◌ : {S B : Type 0} → Result S (Unit {0}) → Result S B → Result S B
first >> next = first >>= λ _. next

-- Where `?` went on and the function returned, both parts returned.
pub >>=-eq-ok :
    {S A B : Type 0} (first : Result S A) (next : A → Result S B) {b : B}
    → (first >>= next) ≡ ok b
    → (value : A) × (first ≡ ok value) × (next value ≡ ok b)
>>=-eq-ok (err error) next h = cc
>>=-eq-ok (ok value) next h = (value, refl, h)
