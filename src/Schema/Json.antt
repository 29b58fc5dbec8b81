-- ===== src/Schema/Json.antt =====
-- `json_escape` of src/schema/types.rs, and the reading of a JSON string.
pub mod RoundTrip
use seekwel.Prelude.{
  ℕ, Bool, ◌&&◌, ◌||◌, List, [], ◌∷◌, ◌++◌, Text, codes, leb, ltb, eqb, if◌then◌else◌,
}
use seekwel.Prelude.Decimal.{hex}

-- `char::is_control`.
unfoldable pub is_control : ℕ → Bool
is_control c = ltb c 32 || (leb 127 c && leb c 159)

unfoldable pub escape_char : ℕ → Text
unfolding is_control
escape_char c =
    if eqb c 34
    then 92 ∷ 34 ∷ []
    else if eqb c 92
    then 92 ∷ 92 ∷ []
    else if eqb c 10
    then 92 ∷ 110 ∷ []
    else if eqb c 13
    then 92 ∷ 114 ∷ []
    else if eqb c 9
    then 92 ∷ 116 ∷ []
    else if is_control c
    then 92 ∷ 117 ∷ hex 4 c
    else c ∷ []

unfoldable pub json_escape : Text → Text
unfolding escape_char
json_escape [] = []
json_escape (c ∷ s) = escape_char c ++ json_escape s
