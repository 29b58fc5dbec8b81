-- ===== src/Tests/Record.antt =====
-- Records, their keys and references to them at concrete inputs.
use seekwel.Prelude.{
  ℕ, suc, ◌≡◌, ◌↔◌, refl, false, true, if◌then◌else◌, ltb, none, some, List, [], ◌∷◌, Text, codes,
  ◌^◌, ◌==◌, arith,
}
use seekwel.Prelude.Integers.{pos}
use seekwel.Errors.{sqlite, ok, err}
use seekwel.Connection.Value.{Value, integer, text}
use seekwel.Connection.Transaction.{World}
use seekwel.Connection.Access.{get, manager, with_write}
use seekwel.Connection.Act.{Sqlite, lift, ◌>>=◌, run_execute}
use seekwel.Query.Plan.{ModelInfo}
use seekwel.Sql.Mutation.{update_by_primary_key}
use seekwel.Model.Params.Numbers.{IntType, upper_bound, InRange}
use seekwel.Model.Keys.{to_association_id, from_generated_id, from_generated_id-to_association_id}
use seekwel.Model.Association.BelongsTo.{
  BelongsTo, reference_value, read_reference, clone_reference, read_reference-reference_value,
}
use seekwel.Model.Record.{PersistedModel, saved, save_record}
use seekwel.Model.Record.Written.{save_record-saved}

abbrev uint8 : IntType
uint8 = record { signed = false; bits = 8 }

fits : InRange uint8 (pos 255)
unfolding upper_bound
fits = omega arith

from_generated_id-to_association_id_example :
    (from_generated_id {S = ℕ} uint8 255 ≡ ok (pos 255))
    ↔ (to_association_id {S = ℕ} (pos 255) ≡ ok 255)
from_generated_id-to_association_id_example =
    from_generated_id-to_association_id uint8 255 (pos 255) fits

abbrev reference : BelongsTo Text
reference = record { id = 2 ^ 63; cached = some (codes "Pat") }

read_reference-reference_value_example :
    read_reference {S = ℕ} 0 (reference_value reference)
    ≡ (if ltb (2 ^ 63) (2 ^ 63) then ok (clone_reference reference) else err (sqlite 0))
read_reference-reference_value_example = read_reference-reference_value 0 reference (omega arith)

-- The database has one row, the name of a person with the key 1.
abbrev store : Sqlite ℕ ℕ Text (List (Value ℕ))
store = record {
  execute_batch = λ sql d. (ok tt, d);
  execute = λ sql params d. (ok 1, params);
  query = λ sql params d. ok [];
  text_at = λ i row. ok row;
  optional_text_at = λ i row. ok none;
  integer_at = λ i row. ok (pos 0);
  no_rows = 0;
  show_real = λ x. [];
}

abbrev person : ModelInfo
person = record {
  table_name = codes "person";
  primary_key = record { name = codes "id"; sql_type = codes "INTEGER"; auto_increment = true };
  columns =
      record { name = codes "name"; sql_type = codes "TEXT"; nullable = false; default_sql = none }
      ∷ [];
}

-- A model is its name, which may not be empty.
abbrev named : PersistedModel ℕ ℕ Text Text Text Text
named = record {
  validation_errors = λ m. if m == [] then codes "can't be blank" ∷ [] else [];
  to_invalid = λ m errors. m;
  params = λ m. text m ∷ [];
  primary_key_value = λ m. integer (pos 1);
  from_row = ok;
}

abbrev world : World (List (Value ℕ))
world = record { initialized = true; state = none; log = []; db = [] }

saves : (save_record store person named (codes "Pat") world).0 ≡ some (saved tt)
unfolding save_record ◌==◌ ◌>>=◌ get manager lift with_write run_execute
saves = refl

save_record-saved_example :
    (named.validation_errors (codes "Pat") ≡ [])
    × (n : ℕ) × (store.execute
          (update_by_primary_key person.table_name person.primary_key person.columns)
          (text (codes "Pat") ∷ integer (pos 1) ∷ [])
          []
        ≡ (ok (suc n), (save_record store person named (codes "Pat") world).1.db))
save_record-saved_example = save_record-saved store person named (codes "Pat") world saves
