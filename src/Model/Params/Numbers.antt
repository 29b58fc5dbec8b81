-- ===== src/Model/Params/Numbers.antt =====
-- `str::parse` at the integer types that src/model/params.rs reads.
use seekwel.Prelude.{
  ℕ, zero, suc, ◌+◌, ◌-◌, ◌^◌, ◌≤◌, ◌<◌, ◌≡◌, ◌≢◌, refl, ap, ◌∙◌, Bool, true, false, ◌&&◌, Option,
  none, some, [], ◌∷◌, Text, leb, ltb, eqb, all, All, Bool-cases, &&_split, inl, inr, if◌then◌else◌,
  arith,
}
use native.Mathlib.Nat.{pow-suc}
use seekwel.Prelude.Integers.{ℤ, pos, negsuc, to_string}
use seekwel.Prelude.Decimal.{decimal, undecimal, undecimal-decimal, decimal_are_digits}

pub record IntType : Type 0 where
  pub signed : Bool
  pub bits : ℕ

is_digit : ℕ → Bool
is_digit c = leb 48 c && leb c 57

-- A run of digits that is not empty.
parse_digits : Text → Option ℕ
unfolding is_digit
parse_digits [] = none
parse_digits (c ∷ s) = if all is_digit (c ∷ s) then some (undecimal (c ∷ s)) else none

abbrev below : ℕ → Option ℕ → Option ℤ
below bound none = none
below bound (some n) = if ltb n bound then some (pos n) else none

-- -n, where it is at least -bound.
negative : ℕ → Option ℕ → Option ℤ
negative bound none = none
negative bound (some n) =
    if leb n bound then some (if eqb n 0 then pos 0 else negsuc (n - 1)) else none

-- One above the largest value.
unfoldable pub upper_bound : IntType → ℕ
upper_bound t = if t.signed then 2 ^ (t.bits - 1) else 2 ^ t.bits

-- A sign may stand before the digits, `-` only for a signed type. A value out of range is refused.
unfoldable pub parse_int : IntType → Text → Option ℤ
unfolding parse_digits negative
parse_int t [] = none
parse_int t (c ∷ s) =
    if eqb c 43
    then below (upper_bound t) (parse_digits s)
    else if eqb c 45 && t.signed
    then negative (upper_bound t) (parse_digits s)
    else below (upper_bound t) (parse_digits (c ∷ s))

digits_lem : (s : Text) → All (λ c. (48 ≤ c) × (c < 58)) s → all is_digit s ≡ true
unfolding is_digit
digits_lem [] h = refl
digits_lem (c ∷ s) h = ground (arith, h.0.0, h.0.1, digits_lem s h.1)

parse_digits_lem :
    (c : ℕ) (s : Text)
    → All (λ d. (48 ≤ d) × (d < 58)) (c ∷ s)
    → parse_digits (c ∷ s) ≡ some (undecimal (c ∷ s))
unfolding parse_digits
parse_digits_lem c s h = rw (digits_lem (c ∷ s) h) refl

parse_plain :
    (t : IntType) (c : ℕ) (s : Text)
    → All (λ d. (48 ≤ d) × (d < 58)) (c ∷ s)
    → parse_int t (c ∷ s) ≡ below (upper_bound t) (some (undecimal (c ∷ s)))
unfolding parse_int
parse_plain t c s h =
    let plus : eqb c 43 ≡ false = ground (arith, h.0.0) in
    let minus : eqb c 45 ≡ false = ground (arith, h.0.0) in
    rw plus (rw minus (rw (parse_digits_lem c s h) refl))

in_bound : (bound n : ℕ) → n < bound → below bound (some n) ≡ some (pos n)
in_bound bound n h = ground arith

parse_run :
    (t : IntType) (s : Text) (n : ℕ)
    → s ≢ []
    → All (λ d. (48 ≤ d) × (d < 58)) s
    → undecimal s ≡ n
    → n < upper_bound t
    → parse_int t s ≡ some (pos n)
parse_run t [] n e h v k = absurd (e refl)
parse_run t (c ∷ s) n e h v k = parse_plain t c s h ∙ rw v (in_bound (upper_bound t) n k)

parse_digits_of :
    (s : Text) → s ≢ [] → All (λ d. (48 ≤ d) × (d < 58)) s → parse_digits s ≡ some (undecimal s)
parse_digits_of [] h k = absurd (h refl)
parse_digits_of (c ∷ s) h k = parse_digits_lem c s k

decimal-ne-nil : (n : ℕ) → decimal n ≢ []
unfolding decimal undecimal
decimal-ne-nil zero h = cc
decimal-ne-nil (suc n) h = absurd (omega (arith, undecimal-decimal (suc n), ap undecimal h))

parse_digits-decimal : (n : ℕ) → parse_digits (decimal n) ≡ some n
parse_digits-decimal n =
    parse_digits_of (decimal n) (decimal-ne-nil n) (decimal_are_digits n)
    ∙ ap some (undecimal-decimal n)

in_negative : (bound n : ℕ) → n < bound → negative bound (some (n + 1)) ≡ some (negsuc n)
unfolding negative
in_negative bound n h = ground arith

-- The values of the type.
abbrev pub InRange : IntType → ℤ → Type 0
InRange t (pos n) = n < upper_bound t
InRange t (negsuc n) = (t.signed ≡ true) × (n < upper_bound t)

parse_minus :
    (t : IntType) (s : Text)
    → t.signed ≡ true
    → parse_int t (45 ∷ s) ≡ negative (upper_bound t) (parse_digits s)
unfolding parse_int
parse_minus t s h = rw h refl

-- The text of an integer in the range of a type parses as that integer.
pub parse_int-to_string : (t : IntType) (z : ℤ) → InRange t z → parse_int t (to_string z) ≡ some z
unfolding to_string
parse_int-to_string t (pos n) h =
    parse_run t (decimal n) n (decimal-ne-nil n) (decimal_are_digits n) (undecimal-decimal n) h
parse_int-to_string t (negsuc n) h =
    parse_minus t (decimal (n + 1)) h.0
    ∙ ap (negative (upper_bound t)) (parse_digits-decimal (n + 1))
    ∙ in_negative (upper_bound t) n h.1

below-InRange :
    (t : IntType) (o : Option ℕ) (z : ℤ) → below (upper_bound t) o ≡ some z → InRange t z
below-InRange t none z h = cc
below-InRange t (some n) (pos m) h = ground arith
below-InRange t (some n) (negsuc m) h = ground arith

negative-InRange :
    (t : IntType) (o : Option ℕ) (z : ℤ)
    → t.signed ≡ true
    → 0 < upper_bound t
    → negative (upper_bound t) o ≡ some z
    → InRange t z
unfolding negative
negative-InRange t none z e k h = cc
negative-InRange t (some n) (pos m) e k h = ground arith
negative-InRange t (some n) (negsuc m) e k h = ground arith

power_pos : (k : ℕ) → 0 < 2 ^ k
power_pos zero = omega arith
power_pos (suc k) = omega (arith, power_pos k, pow-suc 2 k)

upper_bound_pos : (t : IntType) → 0 < upper_bound t
unfolding upper_bound
upper_bound_pos t = elim (Bool-cases t.signed) [
  | inl e ↦ rw e (power_pos (t.bits - 1))
  | inr e ↦ rw e (power_pos t.bits)
]

-- What parses at a type is a value of the type.
pub parse_int-InRange : (t : IntType) (s : Text) (z : ℤ) → parse_int t s ≡ some z → InRange t z
unfolding parse_int
parse_int-InRange t [] z h = cc
parse_int-InRange t (c ∷ s) z h = elim (Bool-cases (eqb c 43)) [
  | inl plus ↦ below-InRange t (parse_digits s) z (rw plus at h)
  | inr other ↦ elim (Bool-cases (eqb c 45 && t.signed)) [
    | inl minus ↦
        negative-InRange t (parse_digits s) z ((&&_split (eqb c 45) t.signed minus).1)
          (upper_bound_pos t) (rw (other, minus) at h)
    | inr none_read ↦ below-InRange t (parse_digits (c ∷ s)) z (rw (other, none_read) at h)
  ]
]
