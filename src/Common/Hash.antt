-- ===== src/Common/Hash.antt =====
-- common/hash.cpp. OpenSSL's SHA256 is a parameter: of it only the size of a digest is assumed.
use synthgen_core.Prelude.{
  ℕ, ◌+◌, ◌*◌, ◌/◌, ◌%◌, ◌≡◌, refl, Text, List, [], ◌∷◌, arith, length, ltb, if◌then◌else◌,
}

pub record Sha256 : Type 0 where
  pub digest : Text → List ℕ
  pub digest_size : (input : Text) → length (digest input) ≡ 32

abbrev hex_digit : ℕ → ℕ
hex_digit n = if ltb n 10 then 48 + n else 87 + n

-- `oss << std::hex << std::setw(2) << std::setfill('0')` of each byte
unfoldable pub hex_bytes : List ℕ → Text
hex_bytes [] = []
hex_bytes (c ∷ cs) = hex_digit (c / 16) ∷ hex_digit (c % 16) ∷ hex_bytes cs

unfoldable pub sha256_hex : Sha256 → Text → Text
sha256_hex sha input = hex_bytes (sha.digest input)

length-hex_bytes : (cs : List ℕ) → length (hex_bytes cs) ≡ 2 * length cs
unfolding hex_bytes
length-hex_bytes [] = refl
length-hex_bytes (c ∷ cs) = omega (arith, length-hex_bytes cs)

pub length-sha256_hex : (sha : Sha256) (input : Text) → length (sha256_hex sha input) ≡ 64
unfolding sha256_hex
length-sha256_hex sha input =
    omega (arith, length-hex_bytes (sha.digest input), sha.digest_size input)
