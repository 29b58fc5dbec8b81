-- ===== src/Model/Builder.antt =====
-- src/model/builder.rs: the fields of a builder. A nested option says whether the field was set.
use seekwel.Prelude.{Option, none, some, Text}
use seekwel.Errors.{missing_field, Result, ok, err}

pub record Required (T : Type 0) : Type 0 where
  pub value : Option T

pub record Optional (T : Type 0) : Type 0 where
  pub value : Option (Option T)

abbrev or_default : {T : Type 0} → T → Option T → T
or_default default none = default
or_default default (some v) = v

module _ {T : Type 0} where
  unfoldable pub unset_required : Required T
  unset_required = record { value = none }

  unfoldable pub set_required : T → Required T → Required T
  set_required v field = record { value = some v }

  finish_of : {S : Type 0} → Text → Option T → Result S T
  finish_of name none = err (missing_field name)
  finish_of name (some v) = ok v

  unfoldable pub finish_required : {S : Type 0} → Text → Required T → Result S T
  unfolding finish_of
  finish_required name field = finish_of name field.value

  unfoldable pub finish_required_with : T → Required T → T
  finish_required_with default field = or_default default field.value

  unfoldable pub unset_optional : Optional T
  unset_optional = record { value = none }

  unfoldable pub set_optional : Option T → Optional T → Optional T
  set_optional v field = record { value = some v }

  unfoldable pub finish_optional : Optional T → Option T
  finish_optional field = or_default none field.value

  unfoldable pub finish_optional_with : Option T → Optional T → Option T
  finish_optional_with default field = or_default default field.value
