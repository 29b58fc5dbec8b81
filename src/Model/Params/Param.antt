-- ===== src/Model/Params/Param.antt =====
-- `Param` of src/model/params.rs: a field of generated params, which may not have been provided.
use seekwel.Prelude.{Bool, Option, none, some, is_some}
use seekwel.Errors.{Result, ok, ◌>>=◌}
use seekwel.Model.Params.Value.{ParamValue}

pub record Param (T : Type 0) : Type 0 where
  pub value : Option T

module _ {T : Type 0} where
  unfoldable pub missing : Param T
  missing = record { value = none }

  unfoldable pub provided : T → Param T
  provided value = record { value = some value }

  unfoldable pub is_provided : Param T → Bool
  is_provided param = is_some param.value

  unfoldable pub into_value : Param T → Option T
  into_value param = param.value

  -- `convert` is `T::from_param_value`.
  unfoldable pub from_param_value :
      {S : Type 0} → (ParamValue → Result S T) → ParamValue → Result S (Param T)
  unfolding provided
  from_param_value convert value = convert value >>= λ v. ok (provided v)
