-- ===== src/Hasher.antt =====
-- core/src/hasher.rs. SHA-256 is the `sha2` crate's: a parameter. Hexadecimal printing is the
-- file's own.
pub mod Laws
use chunkstore.Base.{ℕ, ◌≡◌, ◌/◌, ◌%◌, [], ◌∷◌, if◌then◌else◌}
use chunkstore.Base.Text.{Bytes, Text, codes, text_eq}
use chunkstore.Base.{Option, none, some, suc, zero, List}
use chunkstore.Error.{Result, ok, err, digest_mismatch}

abbrev get_or_zero : List ℕ → ℕ → ℕ
get_or_zero [] i = 0
get_or_zero (x ∷ xs) zero = x
get_or_zero (x ∷ xs) (suc i) = get_or_zero xs i

-- `HEX[i]`
unfoldable pub hex_digit : ℕ → ℕ
unfolding codes
hex_digit = get_or_zero (codes "0123456789abcdef")

-- `hex::encode`
unfoldable pub encode : Bytes → Text
unfolding hex_digit
encode [] = []
encode (b ∷ bytes) = hex_digit (b / 16) ∷ hex_digit (b % 16) ∷ encode bytes

module _ (sha256 : Bytes → Bytes) where
  unfoldable pub digest_hex : Bytes → Text
  digest_hex data' = encode (sha256 data')

  unfoldable pub digest_bytes : Bytes → Bytes
  digest_bytes data' = sha256 data'

  unfoldable pub verify_digest : Bytes → Text → Result (Unit {0})
  verify_digest data' expected_hex =
      let actual = digest_hex data' in
      if text_eq actual expected_hex then ok tt else err (digest_mismatch expected_hex actual)
