-- ===== src/Prelude/Xor.antt =====
-- `^` of two numbers, digit by digit.
use Prim.Native.Nat.{
  ℕ, zero, suc, ◌+◌, ◌*◌, ◌/◌, ◌%◌, ◌^◌, ◌<◌, ◌≤◌, digits, differ, bit_xor, bit_xor-bitwise,
}
use mathlib.Core.Path.{◌≡◌, refl}
use native.Mathlib.Omega.{arith}
use native.Mathlib.Nat.{le_refl, pow-suc}

-- The fuel of the digits does not matter where it is enough.
enough_fuel :
    (n m a b : ℕ) → a ≤ n → a ≤ m → digits (λ y. y) differ n a b ≡ digits (λ y. y) differ m a b
enough_fuel zero zero a b p q = refl
enough_fuel (suc n) zero zero b p q = refl
enough_fuel zero (suc m) zero b p q = refl
enough_fuel (suc n) zero (suc a) b p q = absurd (omega arith)
enough_fuel zero (suc m) (suc a) b p q = absurd (omega arith)
enough_fuel (suc n) (suc m) zero b p q = refl
enough_fuel (suc n) (suc m) (suc a) b p q =
    rw (enough_fuel n m (suc a / 2) (b / 2) (omega arith) (omega arith))

bit_xor_step : (a b : ℕ) → bit_xor a b ≡ bit_xor (a / 2) (b / 2) * 2 + differ (a % 2) (b % 2)
bit_xor_step zero b = simp bit_xor-bitwise (omega arith)
bit_xor_step (suc a) b =
    simp bit_xor-bitwise
      (omega (arith, enough_fuel a (suc a / 2) (suc a / 2) (b / 2) (omega arith) (le_refl _)))

-- The lowest digits.
digit : (a b : ℕ) → a < 2 → b < 2 → (differ a b < 2) × ((a + b) % 2 ≡ differ a b)
digit zero zero h k = (omega arith, refl)
digit zero (suc zero) h k = (omega arith, refl)
digit (suc zero) zero h k = (omega arith, refl)
digit (suc zero) (suc zero) h k = (omega arith, refl)
digit zero (suc (suc b)) h k = absurd (omega arith)
digit (suc zero) (suc (suc b)) h k = absurd (omega arith)
digit (suc (suc a)) b h k = absurd (omega arith)

halves :
    (a b : ℕ)
    → (bit_xor a b / 2 ≡ bit_xor (a / 2) (b / 2)) × (bit_xor a b % 2 ≡ (a % 2 + b % 2) % 2)
halves a b =
    let d = digit (a % 2) (b % 2) (omega arith) (omega arith) in
    (omega (arith, bit_xor_step a b, d.0, d.1), omega (arith, bit_xor_step a b, d.0, d.1))

pub bit_xor-lt : (k a b : ℕ) → a < 2 ^ k → b < 2 ^ k → bit_xor a b < 2 ^ k
bit_xor-lt zero zero zero h l = omega arith
bit_xor-lt zero zero (suc b) h l = absurd (omega arith)
bit_xor-lt zero (suc a) b h l = absurd (omega arith)
bit_xor-lt (suc k) a b h l = omega (
  arith,
  halves a b,
  pow-suc 2 k,
  bit_xor-lt k (a / 2) (b / 2) (omega (arith, pow-suc 2 k)) (omega (arith, pow-suc 2 k)),
)

-- The first argument is found from the result, and so is the second.
pub bit_xor-inj_left : (k a a' b : ℕ) → a < 2 ^ k → a' < 2 ^ k → bit_xor a b ≡ bit_xor a' b → a ≡ a'
bit_xor-inj_left zero a a' b h l e = omega arith
bit_xor-inj_left (suc k) a a' b h l e =
    let (q, r) = halves a b in
    let (q', r') = halves a' b in
    let same =
      bit_xor-inj_left k (a / 2) (a' / 2) (b / 2) (omega (arith, pow-suc 2 k))
        (omega (arith, pow-suc 2 k)) (omega (arith, q, q', e)) in
    omega (arith, same, r, r', e)

pub bit_xor-inj_right :
    (k a b b' : ℕ) → b < 2 ^ k → b' < 2 ^ k → bit_xor a b ≡ bit_xor a b' → b ≡ b'
bit_xor-inj_right zero a b b' h l e = omega arith
bit_xor-inj_right (suc k) a b b' h l e =
    let (q, r) = halves a b in
    let (q', r') = halves a b' in
    let same =
      bit_xor-inj_right k (a / 2) (b / 2) (b' / 2) (omega (arith, pow-suc 2 k))
        (omega (arith, pow-suc 2 k)) (omega (arith, q, q', e)) in
    omega (arith, same, r, r', e)
