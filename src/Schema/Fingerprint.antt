-- ===== src/Schema/Fingerprint.antt =====
-- `stable_hash_hex` and `SchemaDef::fingerprint` of src/schema/types.rs.
pub mod Apart
use seekwel.Prelude.{
  ℕ, ◌+◌, ◌*◌, ◌/◌, ◌%◌, ◌^◌, ◌<◌, ◌≡◌, sym, ap, ◌∙◌, ◌↔◌, bit_xor, List, [], ◌∷◌, ◌++◌, Text, ltb,
  length, if◌then◌else◌, arith,
}
use seekwel.Prelude.Decimal.{hex, unhex, unhex-hex, length-hex}
use seekwel.Schema.Types.{SchemaDef}
use seekwel.Schema.Canonical.{canonical_string}

-- The UTF-8 bytes of a character, and of a text, as `as_bytes` has them.
utf8_char : ℕ → List ℕ
utf8_char c =
    if ltb c 128
    then c ∷ []
    else if ltb c 2048
    then (192 + c / 64) ∷ (128 + c % 64) ∷ []
    else if ltb c 65536
    then (224 + c / 4096) ∷ (128 + c / 64 % 64) ∷ (128 + c % 64) ∷ []
    else (240 + c / 262144) ∷ (128 + c / 4096 % 64) ∷ (128 + c / 64 % 64) ∷ (128 + c % 64) ∷ []

unfoldable pub utf8 : Text → List ℕ
unfolding utf8_char
utf8 [] = []
utf8 (c ∷ s) = utf8_char c ++ utf8 s

abbrev fnv_offset : ℕ
fnv_offset = 14695981039346656037

abbrev fnv_prime : ℕ
fnv_prime = 1099511628211

-- `for byte in bytes { hash ^= byte; hash = hash.wrapping_mul(PRIME) }`
fnv_from : ℕ → List ℕ → ℕ
fnv_from hash [] = hash
fnv_from hash (byte ∷ bytes) = fnv_from (bit_xor hash byte * fnv_prime % 2 ^ 64) bytes

unfoldable pub fnv1a64 : List ℕ → ℕ
unfolding fnv_from
fnv1a64 bytes = fnv_from fnv_offset bytes

unfoldable pub stable_hash_hex : List ℕ → Text
stable_hash_hex bytes = hex 16 (fnv1a64 bytes)

-- `SchemaDef::fingerprint`.
unfoldable pub fingerprint : SchemaDef → Text
fingerprint s = stable_hash_hex (utf8 (canonical_string s))

fnv_from-lt : (hash : ℕ) (bytes : List ℕ) → hash < 2 ^ 64 → fnv_from hash bytes < 2 ^ 64
unfolding fnv_from
fnv_from-lt hash [] h = h
fnv_from-lt hash (byte ∷ bytes) h =
    fnv_from-lt (bit_xor hash byte * fnv_prime % 2 ^ 64) bytes (omega arith)

fnv1a64-lt : (bytes : List ℕ) → fnv1a64 bytes < 16 ^ 16
unfolding fnv1a64
fnv1a64-lt bytes = omega (arith, fnv_from-lt fnv_offset bytes (omega arith))

-- A fingerprint text has 16 digits, and two of them are equal exactly if the hashes are.
pub stable_hash_hex_iff :
    (a b : List ℕ)
    → (length (stable_hash_hex a) ≡ 16)
      × ((stable_hash_hex a ≡ stable_hash_hex b) ↔ (fnv1a64 a ≡ fnv1a64 b))
unfolding stable_hash_hex
stable_hash_hex_iff a b = (
  length-hex 16 (fnv1a64 a),
  (
    λ e.
        sym (unhex-hex 16 (fnv1a64 a) (fnv1a64-lt a))
        ∙ ap unhex e
        ∙ unhex-hex 16 (fnv1a64 b) (fnv1a64-lt b),
    λ e. ap (hex 16) e,
  ),
)
