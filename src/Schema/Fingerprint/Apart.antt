-- ===== src/Schema/Fingerprint/Apart.antt =====
-- Two texts of bytes that differ in one byte have different hashes.
use seekwel.Prelude.{
  ℕ, ◌*◌, ◌%◌, ◌^◌, ◌<◌, ◌≡◌, ◌≢◌, refl, sym, ap, ◌∙◌, List, [], ◌∷◌, ◌++◌, bit_xor, All, length,
  arith,
}
use seekwel.Prelude.Xor.{bit_xor-lt, bit_xor-inj_left, bit_xor-inj_right}
use seekwel.Schema.Fingerprint.{
  fnv_offset, fnv_prime, fnv_from, fnv1a64, fnv_from-lt, stable_hash_hex, stable_hash_hex_iff,
}

abbrev pub IsByte : ℕ → Type 0
IsByte b = b < 256

-- A factor that undoes the one of the hash.
abbrev undone : ℕ
undone = 14886173955864302971

unmultiplied : (x : ℕ) → x < 2 ^ 64 → x * fnv_prime % 2 ^ 64 * undone % 2 ^ 64 ≡ x
unmultiplied x h = omega arith

multiplied_inj :
    (x y : ℕ) → x < 2 ^ 64 → y < 2 ^ 64 → x * fnv_prime % 2 ^ 64 ≡ y * fnv_prime % 2 ^ 64 → x ≡ y
multiplied_inj x y h k e =
    sym (unmultiplied x h) ∙ ap (λ r. r * undone % 2 ^ 64) e ∙ unmultiplied y k

small : (b : ℕ) → IsByte b → b < 2 ^ 64
small b h = omega arith

mixed-lt : (hash b : ℕ) → hash < 2 ^ 64 → IsByte b → bit_xor hash b < 2 ^ 64
mixed-lt hash b h k = bit_xor-lt 64 hash b h (small b k)

-- The bytes that follow keep two hashes apart.
fnv_from-inj :
    (bytes : List ℕ) (hash hash' : ℕ)
    → All IsByte bytes
    → hash < 2 ^ 64
    → hash' < 2 ^ 64
    → fnv_from hash bytes ≡ fnv_from hash' bytes
    → hash ≡ hash'
unfolding fnv_from
fnv_from-inj [] hash hash' a h k e = e
fnv_from-inj (b ∷ bytes) hash hash' a h k e = bit_xor-inj_left 64 hash hash' b h k (
    multiplied_inj (bit_xor hash b) (bit_xor hash' b) (mixed-lt hash b h a.0)
      (mixed-lt hash' b k a.0) (fnv_from-inj bytes _ _ a.1 (omega arith) (omega arith) e))

fnv_from-append :
    (xs ys : List ℕ) (hash : ℕ) → fnv_from hash (xs ++ ys) ≡ fnv_from (fnv_from hash xs) ys
unfolding fnv_from
fnv_from-append [] ys hash = refl
fnv_from-append (x ∷ xs) ys hash = fnv_from-append xs ys (bit_xor hash x * fnv_prime % 2 ^ 64)

same_byte :
    (before after : List ℕ) (a b : ℕ)
    → All IsByte after
    → IsByte a
    → IsByte b
    → fnv1a64 (before ++ a ∷ after) ≡ fnv1a64 (before ++ b ∷ after)
    → a ≡ b
unfolding fnv1a64 fnv_from
same_byte before after a b t h k e =
    let start = fnv_from fnv_offset before in
    let bound = fnv_from-lt fnv_offset before (omega arith) in
    let mixed =
      fnv_from-inj after (bit_xor start a * fnv_prime % 2 ^ 64)
        (bit_xor start b * fnv_prime % 2 ^ 64) t (omega arith) (omega arith)
        (sym (fnv_from-append before (a ∷ after) fnv_offset)
          ∙ e
          ∙ fnv_from-append before (b ∷ after) fnv_offset) in
    bit_xor-inj_right 64 start a b (small a h) (small b k) (
      multiplied_inj (bit_xor start a) (bit_xor start b) (mixed-lt start a bound h)
        (mixed-lt start b bound k) mixed)

-- The hash of bytes has 16 digits, and the hashes of two sequences of bytes that differ in exactly one
-- byte are different.
pub stable_hash_hex_apart :
    (before after : List ℕ) (a b : ℕ)
    → All IsByte after
    → IsByte a
    → IsByte b
    → a ≢ b
    → (length (stable_hash_hex (before ++ a ∷ after)) ≡ 16)
      × (stable_hash_hex (before ++ a ∷ after) ≢ stable_hash_hex (before ++ b ∷ after))
stable_hash_hex_apart before after a b t h k n =
    let facts = stable_hash_hex_iff (before ++ a ∷ after) (before ++ b ∷ after) in
    (facts.0, (λ e. n (same_byte before after a b t h k (facts.1.0 e))))
