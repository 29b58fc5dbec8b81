-- ===== src/Model/Params/Deserialize.antt =====
-- The deserializer of `ParamValue` in src/model/params.rs, and the visitor that makes one. A method
-- ends in a call of serde's visitor, `Visit`, or in an error. `F` is `f64`, `parse_float` its `parse`.
use seekwel.Prelude.{
  ℕ, ◌≡◌, refl, ◌==◌, Bool, true, false, Option, none, some, List, [], ◌∷◌, Text, codes, any,
  is_empty, if◌then◌else◌,
}
use seekwel.Prelude.Integers.{ℤ, to_string}
use seekwel.Prelude.Search.{eq_ignore_ascii_case, to_ascii_lowercase}
use seekwel.Connection.Log.{is_whitespace}
use seekwel.Schema.Affinity.{trim}
use seekwel.Schema.Fingerprint.{utf8}
use seekwel.Model.Params.Value.{ParamValue, null, scalar, list, map, Values, Entries}
use seekwel.Model.Params.Numbers.{IntType, parse_int, InRange, parse_int-to_string}

pub data Unexpected : Type 0 where
  unit seq mapping : Unexpected
  str : Text → Unexpected

-- What was found, and what was expected.
pub data DeError : Type 0 where
  invalid_type invalid_value : Unexpected → Text → DeError

pub data Visit (F : Type 0) : Type 0 where
  visit_unit visit_none : Visit F
  visit_bool : Bool → Visit F
  visit_int : IntType → ℤ → Visit F
  visit_float : F → Visit F
  visit_char : ℕ → Visit F
  visit_string visit_enum : Text → Visit F
  visit_byte_buf : List ℕ → Visit F
  visit_seq : Values → Visit F
  visit_map : Entries → Visit F
  visit_some visit_newtype_struct : ParamValue → Visit F

pub data Outcome (A : Type 0) : Type 0 where
  done : A → Outcome A
  refused : DeError → Outcome A

infixl 5 ◌>>=◌
abbrev ◌>>=◌ : {A B : Type 0} → Outcome A → (A → Outcome B) → Outcome B
done a >>= next = next a
refused e >>= next = refused e

unfoldable pub into_scalar : Text → ParamValue → Outcome Text
into_scalar expected (scalar raw) = done raw
into_scalar expected null = refused (invalid_type unit expected)
into_scalar expected (list items) = refused (invalid_type seq expected)
into_scalar expected (map entries) = refused (invalid_type mapping expected)

abbrev parsed : {A : Type 0} → Text → Text → Option A → Outcome A
parsed raw expected none = refused (invalid_value (str raw) expected)
parsed raw expected (some a) = done a

unfoldable pub parse_scalar : {A : Type 0} → (Text → Option A) → Text → ParamValue → Outcome A
unfolding into_scalar
parse_scalar parse expected value =
    into_scalar expected value >>= λ raw. parsed raw expected (parse raw)

abbrev bool_words : Text
bool_words = codes "one of 1, true, on, yes, 0, false, off, or no"

-- `value.trim()` is one of these words, in any case.
is_one_of : List Text → Text → Bool
is_one_of words raw = any (eq_ignore_ascii_case (trim raw)) words

module _ {F : Type 0} where
  unfoldable pub deserialize_any : ParamValue → Visit F
  deserialize_any null = visit_unit
  deserialize_any (scalar raw) = visit_string raw
  deserialize_any (list items) = visit_seq items
  deserialize_any (map entries) = visit_map entries

  unfoldable pub deserialize_bool : ParamValue → Outcome (Visit F)
  unfolding into_scalar is_one_of
  deserialize_bool value = into_scalar bool_words value >>= λ raw.
      if is_one_of (codes "1" ∷ codes "true" ∷ codes "on" ∷ codes "yes" ∷ []) raw
      then done (visit_bool true)
      else if is_one_of (codes "0" ∷ codes "false" ∷ codes "off" ∷ codes "no" ∷ []) raw
      then done (visit_bool false)
      else refused (invalid_value (str raw) bool_words)

  -- `deserialize_i8` to `deserialize_u64`, each with its type and the text of what it expects.
  unfoldable pub deserialize_int : IntType → Text → ParamValue → Outcome (Visit F)
  unfolding parse_scalar
  deserialize_int t expected value =
      parse_scalar (parse_int t) expected value >>= λ n. done (visit_int t n)

  unfoldable pub deserialize_float : (Text → Option F) → Text → ParamValue → Outcome (Visit F)
  unfolding parse_scalar
  deserialize_float parse_float expected value =
      parse_scalar parse_float expected value >>= λ x. done (visit_float x)

  one_char : Text → Outcome (Visit F)
  one_char (c ∷ []) = done (visit_char c)
  one_char raw = refused (invalid_value (str raw) (codes "a single character"))

  unfoldable pub deserialize_char : ParamValue → Outcome (Visit F)
  unfolding into_scalar one_char
  deserialize_char value = into_scalar (codes "a single character") value >>= one_char

  unfoldable pub deserialize_string : ParamValue → Outcome (Visit F)
  unfolding into_scalar
  deserialize_string value = into_scalar (codes "a string") value >>= λ raw. done (visit_string raw)

  unfoldable pub deserialize_byte_buf : ParamValue → Outcome (Visit F)
  unfolding into_scalar
  deserialize_byte_buf value =
      into_scalar (codes "bytes") value >>= λ raw. done (visit_byte_buf (utf8 raw))

  unfoldable pub deserialize_option : ParamValue → Visit F
  deserialize_option null = visit_none
  deserialize_option (scalar raw) = visit_some (scalar raw)
  deserialize_option (list items) = visit_some (list items)
  deserialize_option (map entries) = visit_some (map entries)

  unfoldable pub deserialize_unit : ParamValue → Outcome (Visit F)
  deserialize_unit null = done visit_unit
  deserialize_unit (scalar raw) =
      if is_empty raw
      then done visit_unit
      else refused (invalid_value (str raw) (codes "an empty string or null"))
  deserialize_unit (list items) = refused (invalid_type seq (codes "an empty string or null"))
  deserialize_unit (map entries) = refused (invalid_type mapping (codes "an empty string or null"))

  unfoldable pub deserialize_newtype_struct : ParamValue → Visit F
  deserialize_newtype_struct value = visit_newtype_struct value

  unfoldable pub deserialize_enum : ParamValue → Outcome (Visit F)
  unfolding into_scalar
  deserialize_enum value =
      into_scalar (codes "an enum variant") value >>= λ raw. done (visit_enum raw)

  unfoldable pub deserialize_identifier : ParamValue → Outcome (Visit F)
  unfolding into_scalar
  deserialize_identifier value =
      into_scalar (codes "an identifier") value >>= λ raw. done (visit_string raw)

  unfoldable pub deserialize_ignored_any : ParamValue → Visit F
  deserialize_ignored_any value = visit_unit

-- `ParamValueVisitor`: the value for a Boolean, and for an integer of any type.
unfoldable pub value_of_bool : Bool → ParamValue
value_of_bool b = scalar (if b then codes "true" else codes "false")

unfoldable pub value_of_int : ℤ → ParamValue
value_of_int n = scalar (to_string n)

deserialize_bool-value :
    {F : Type 0} (b : Bool) → deserialize_bool {F = F} (value_of_bool b) ≡ done (visit_bool b)
unfolding deserialize_bool value_of_bool eq_ignore_ascii_case to_ascii_lowercase trim is_whitespace
    ◌==◌
deserialize_bool-value true = refl
deserialize_bool-value false = refl

-- The value that the visitor makes of a Boolean reads as that Boolean, and the one of an integer reads
-- as that integer at every integer type that has it.
pub deserialize-value :
    {F : Type 0} (b : Bool) (t : IntType) (n : ℤ) (expected : Text)
    → InRange t n
    → (deserialize_bool {F = F} (value_of_bool b) ≡ done (visit_bool b))
      × (deserialize_int {F = F} t expected (value_of_int n) ≡ done (visit_int t n))
unfolding deserialize_int value_of_int
deserialize-value b t n expected h = (deserialize_bool-value b, rw (parse_int-to_string t n h) refl)
