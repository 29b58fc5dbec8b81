-- ===== src/Model/Association/BelongsTo.antt =====
-- `BelongsTo` of src/model/association/belongs_to.rs. `load` returns the association too, since it
-- changes the cache, whose lock is left out. `conversion_failure` is the error of rusqlite at a column.
use seekwel.Prelude.{ℕ, ◌^◌, ◌<◌, ◌≡◌, Bool, eqb, Option, none, some, ltb, if◌then◌else◌, arith}
use seekwel.Prelude.Integers.{ℤ, pos, negsuc}
use seekwel.Errors.{sqlite, Result, ok, err}
use seekwel.Connection.Transaction.{World}
use seekwel.Connection.Act.{Act}
use seekwel.Model.Keys.{as_i64}

pub record BelongsTo (T : Type 0) : Type 0 where
  pub id : ℕ
  pub cached : Option T

module _ {T : Type 0} where
  unfoldable pub new_reference : ℕ → BelongsTo T
  new_reference id = record { id = id; cached = none }

  unfoldable pub with_cached : (T → ℕ) → T → BelongsTo T
  with_cached id_of model = record { id = id_of model; cached = some model }

  unfoldable pub forget_cached : BelongsTo T → BelongsTo T
  forget_cached b = record b { cached = none }

  -- The clone has no cache.
  unfoldable pub clone_reference : BelongsTo T → BelongsTo T
  unfolding new_reference
  clone_reference b = new_reference b.id

  -- Associations are equal if their ids are.
  unfoldable pub same_reference : BelongsTo T → BelongsTo T → Bool
  same_reference a b = eqb a.id b.id

  -- `From` of a signed integer, which panics on a negative one.
  unfoldable pub from_signed : ℤ → Option (BelongsTo T)
  unfolding new_reference
  from_signed (pos n) = some (new_reference n)
  from_signed (negsuc n) = none

  -- The integer that `to_sql_value` makes of the id.
  unfoldable pub reference_value : BelongsTo T → ℤ
  unfolding as_i64
  reference_value b = as_i64 (pos b.id)

  -- `from_sql_row` from what `row.get` returned.
  unfoldable pub read_reference : {S : Type 0} → S → ℤ → Result S (BelongsTo T)
  unfolding new_reference
  read_reference conversion_failure (pos n) = ok (new_reference n)
  read_reference conversion_failure (negsuc n) = err (sqlite conversion_failure)

  module _ {S D : Type 0} (find : ℕ → Act S D T) where
    found :
        BelongsTo T → Option (Result S T) × World D → Option (Result S T) × World D × BelongsTo T
    found b (some (ok model), w) = (some (ok model), w, record b { cached = some model })
    found b (some (err e), w) = (some (err e), w, b)
    found b (none, w) = (none, w, b)

    load_from : Option T → BelongsTo T → World D → Option (Result S T) × World D × BelongsTo T
    unfolding found
    load_from (some model) b w = (some (ok model), w, b)
    load_from none b w = found b (find b.id w)

    unfoldable pub load_reference :
        BelongsTo T → World D → Option (Result S T) × World D × BelongsTo T
    unfolding load_from
    load_reference b w = load_from b.cached b w

  -- A reference to an id below 2 ^ 63 is read back, without its cache, from what is stored for it. One
  -- to a larger id of 64 bits is stored, and refused where it is read.
  pub read_reference-reference_value :
      {S : Type 0} (failure : S) (b : BelongsTo T)
      → b.id < 2 ^ 64
      → read_reference failure (reference_value b)
        ≡ (if ltb b.id (2 ^ 63) then ok (clone_reference b) else err (sqlite failure))
  unfolding read_reference reference_value clone_reference new_reference as_i64
  read_reference-reference_value failure b h = ground arith
