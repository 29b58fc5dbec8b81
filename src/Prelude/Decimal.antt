-- ===== src/Prelude/Decimal.antt =====
-- `{}` of an unsigned integer, and the number that a run of digits stands for.
use Prim.Native.Nat.{ℕ, zero, suc, ◌+◌, ◌-◌, ◌*◌, ◌/◌, ◌%◌, ◌^◌, ◌<◌, ◌≤◌}
use mathlib.Core.Path.{◌≡◌, refl, ap, sym, ◌∙◌}
use mathlib.Core.List.{List, [], ◌∷◌, ◌++◌}
use native.Mathlib.Nat.{pow-suc}
use native.Mathlib.Omega.{arith}
use seekwel.Prelude.Tests.{ltb, if◌then◌else◌}
use seekwel.Prelude.Lists.{All, length, length-append}

-- The digits of `n` before `acc`, on fuel above the number of digits.
digits : ℕ → ℕ → List ℕ → List ℕ
digits zero n acc = acc
digits (suc fuel) n acc =
    let rest = digits fuel (n / 10) ((48 + n % 10) ∷ acc) in
    if ltb n 10 then (48 + n) ∷ acc else rest

unfoldable pub decimal : ℕ → List ℕ
unfolding digits
decimal n = digits (suc n) n []

unfoldable pub undecimal_from : ℕ → List ℕ → ℕ
undecimal_from v [] = v
undecimal_from v (c ∷ s) = undecimal_from (v * 10 + (c - 48)) s

-- The number that a run of digits stands for.
unfoldable pub undecimal : List ℕ → ℕ
unfolding undecimal_from
undecimal = undecimal_from 0

undecimal-digits :
    (fuel n : ℕ) (acc : List ℕ)
    → n < fuel
    → undecimal_from 0 (digits fuel n acc) ≡ undecimal_from n acc
unfolding digits undecimal_from
undecimal-digits zero n acc h = elim h [ ]
undecimal-digits (suc fuel) n acc h =
    ground (arith, undecimal-digits fuel (n / 10) ((48 + n % 10) ∷ acc))

pub undecimal-decimal : (n : ℕ) → undecimal (decimal n) ≡ n
unfolding decimal undecimal
undecimal-decimal n = undecimal-digits (suc n) n [] (omega arith)

-- Two numbers have one rendering only if they are equal.
pub decimal-injective : (m n : ℕ) → decimal m ≡ decimal n → m ≡ n
decimal-injective m n e = sym (undecimal-decimal m) ∙ ap undecimal e ∙ undecimal-decimal n

-- Every character of a rendering is a digit.
digits_are_digits :
    (fuel n : ℕ) (acc : List ℕ)
    → All (λ c. (48 ≤ c) × (c < 58)) acc
    → All (λ c. (48 ≤ c) × (c < 58)) (digits fuel n acc)
unfolding digits
digits_are_digits zero n acc h = h
digits_are_digits (suc fuel) n acc h =
    ground (arith, digits_are_digits fuel (n / 10) ((48 + n % 10) ∷ acc))

pub decimal_are_digits : (n : ℕ) → All (λ c. (48 ≤ c) × (c < 58)) (decimal n)
unfolding decimal
decimal_are_digits n = digits_are_digits (suc n) n [] tt

-- `{:0w$x}` of an unsigned integer below `16 ^ w`.
hex_digit : ℕ → ℕ
hex_digit d = if ltb d 10 then 48 + d else 87 + d

unfoldable pub hex : ℕ → ℕ → List ℕ
unfolding hex_digit
hex zero n = []
hex (suc w) n = hex w (n / 16) ++ (hex_digit (n % 16) ∷ [])

hex_value : ℕ → ℕ
hex_value c = if ltb c 58 then c - 48 else c - 87

unhex_from : ℕ → List ℕ → ℕ
unhex_from v [] = v
unhex_from v (c ∷ s) = unhex_from (v * 16 + hex_value c) s

-- The number that a run of hexadecimal digits stands for.
unfoldable pub unhex : List ℕ → ℕ
unfolding unhex_from hex_value
unhex = unhex_from 0

hex_value-hex_digit : (n : ℕ) → n < 16 → hex_value (hex_digit n) ≡ n
unfolding hex_value hex_digit
hex_value-hex_digit n h = ground arith

unhex_from-append : (v : ℕ) (a b : List ℕ) → unhex_from v (a ++ b) ≡ unhex_from (unhex_from v a) b
unfolding unhex_from
unhex_from-append v [] b = refl
unhex_from-append v (c ∷ a) b = unhex_from-append (v * 16 + hex_value c) a b

-- The digits of a number below `16 ^ w` stand for it.
pub unhex-hex : (w n : ℕ) → n < 16 ^ w → unhex (hex w n) ≡ n
unfolding unhex hex
unhex-hex zero n h = omega arith
unhex-hex (suc w) n h =
    unhex_from-append 0 (hex w (n / 16)) (hex_digit (n % 16) ∷ [])
    ∙ omega (
      arith,
      unhex-hex w (n / 16) (omega (arith, pow-suc 16 w)),
      hex_value-hex_digit (n % 16) (omega arith),
    )

pub length-hex : (w n : ℕ) → length (hex w n) ≡ w
unfolding hex
length-hex zero n = refl
length-hex (suc w) n =
    omega (arith, length-append (hex w (n / 16)) (hex_digit (n % 16) ∷ []), length-hex w (n / 16))
