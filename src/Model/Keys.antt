-- ===== src/Model/Keys.antt =====
-- Integers as SQLite values in src/model/sql_field.rs, and primary keys in src/model/mod.rs.
use seekwel.Prelude.{
  ℕ, ◌-◌, ◌^◌, ◌≡◌, ◌↔◌, Bool, true, false, Text, codes, ◌++◌, ltb, if◌then◌else◌, arith,
}
use seekwel.Prelude.Decimal.{decimal}
use seekwel.Prelude.Integers.{ℤ, pos, negsuc, to_string}
use seekwel.Errors.{Error, invalid_model, Result, ok, err}
use seekwel.Connection.Value.{Value, integer}
use seekwel.Model.Params.Numbers.{IntType, upper_bound, InRange}

-- `as i64` of a value of an integer type of at most 64 bits.
unfoldable pub as_i64 : ℤ → ℤ
as_i64 (pos n) = if ltb n (2 ^ 63) then pos n else negsuc (2 ^ 64 - 1 - n)
as_i64 (negsuc n) = negsuc n

-- `to_sql_value` of the integer types.
unfoldable pub to_sql_value : {R : Type 0} → ℤ → Value R
unfolding as_i64
to_sql_value z = integer (as_i64 z)

-- `stringify!($ty)`
unfoldable pub type_name : IntType → Text
type_name t = (if t.signed then codes "i" else codes "u") ++ decimal t.bits

module _ {S : Type 0} where
  -- `to_association_id` of a key: an unsigned key is positive.
  unfoldable pub to_association_id : ℤ → Result S ℕ
  to_association_id (pos n) = ok n
  to_association_id (negsuc n) = err (
      invalid_model (
        codes "primary key value "
        ++ (to_string (negsuc n)
            ++ codes " cannot be represented as a non-negative association id")))

  unfoldable pub from_generated_id : IntType → ℕ → Result S ℤ
  unfolding type_name
  from_generated_id t id =
      if ltb id (upper_bound t)
      then ok (pos id)
      else err (
          invalid_model (
            codes "generated primary key "
            ++ (decimal id ++ (codes " does not fit in " ++ type_name t))))

  accepted : (b : Bool) (z key : ℤ) (e : Error S) → (if b then ok z else err e) ≡ ok key → z ≡ key
  accepted true z key e h = cc
  accepted false z key e h = cc

  -- For a key of the type, it is the key that is made of a generated id exactly if that id is its
  -- association id.
  pub from_generated_id-to_association_id :
      (t : IntType) (id : ℕ) (key : ℤ)
      → InRange t key
      → (from_generated_id t id ≡ ok key) ↔ (to_association_id key ≡ ok id)
  unfolding to_association_id from_generated_id
  from_generated_id-to_association_id t id (pos n) h = (
    (λ e. (let k = accepted (ltb id (upper_bound t)) (pos id) (pos n) _ e in cc)),
    (λ e. (let same : n ≡ id = cc in ground (arith, h, same))),
  )
  from_generated_id-to_association_id t id (negsuc n) h =
      ((λ e. (let k = accepted (ltb id (upper_bound t)) (pos id) (negsuc n) _ e in cc)), (λ e. cc))
