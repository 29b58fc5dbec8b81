-- ===== src/Connection/Value.antt =====
-- The values of SQLite, and their texts in the log of src/connection.rs. `R` is `f64`.
use seekwel.Prelude.{ℕ, ◌+◌, ◌/◌, ◌%◌, List, [], ◌∷◌, ◌++◌, Text, codes, eqb, ltb, if◌then◌else◌}
use seekwel.Prelude.Integers.{ℤ, to_string}

pub data Value (R : Type 0) : Type 0 where
  null : Value R
  integer : ℤ → Value R
  real : R → Value R
  text : Text → Value R
  blob : List ℕ → Value R

-- `value.replace('\\', "\\\\").replace('\'', "''")`
unfoldable pub double : ℕ → Text → Text
double c [] = []
double c (d ∷ s) = if eqb d c then d ∷ d ∷ double c s else d ∷ double c s

hex_digit : ℕ → ℕ
hex_digit n = if ltb n 10 then 48 + n else 55 + n

-- `{:02X}` of each byte.
hex_bytes : List ℕ → Text
hex_bytes [] = []
hex_bytes (byte ∷ bytes) = hex_digit (byte / 16) ∷ hex_digit (byte % 16) ∷ hex_bytes bytes

unfoldable pub render_value : {R : Type 0} → (R → Text) → Value R → Text
unfolding double hex_digit hex_bytes
render_value show null = codes "NULL"
render_value show (integer n) = to_string n
render_value show (real x) = show x
render_value show (text s) = 39 ∷ (double 39 (double 92 s) ++ 39 ∷ [])
render_value show (blob bytes) = codes "x'" ++ (hex_bytes bytes ++ 39 ∷ [])
