-- ===== src/Prelude/Integers.antt =====
-- `i64`, and its text. The numbers that SQLite returns are in range already.
use Prim.Native.Nat.{ℕ, ◌+◌}
use mathlib.Core.Bool.{Bool, false}
use mathlib.Core.List.{List, ◌∷◌}
use seekwel.Prelude.Tests.{ltb, eqb}
use seekwel.Prelude.Decimal.{decimal}

-- `negsuc n` is -(n + 1).
pub data ℤ : Type 0 where
  pos : ℕ → ℤ
  negsuc : ℕ → ℤ

abbrev pub is_positive : ℤ → Bool
is_positive (pos n) = ltb 0 n
is_positive (negsuc n) = false

-- `n == k` for a number `k`.
abbrev pub is_number : ℕ → ℤ → Bool
is_number k (pos n) = eqb n k
is_number k (negsuc n) = false

unfoldable pub to_string : ℤ → List ℕ
to_string (pos n) = decimal n
to_string (negsuc n) = 45 ∷ decimal (n + 1)
