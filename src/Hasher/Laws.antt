-- ===== src/Hasher/Laws.antt =====
-- What core/src/hasher.rs promises: a digest is 64 hexadecimal digits, and it names its hash.
use chunkstore.Base.{
  ℕ, zero, suc, ◌≡◌, ◌≢◌, ◌↔◌, refl, ap, ◌-◌, ◌*◌, ◌/◌, ◌%◌, ◌<◌, Bool, true, ◌&&◌, [], ◌∷◌, arith,
  length, all, All, ltb, ◌==◌, if◌then◌else◌,
}
use chunkstore.Base.Text.{Bytes, Text, is_ascii_hexdigit, cons_eq}
use chunkstore.Error.{ok, err, digest_mismatch}
use chunkstore.Hasher.{hex_digit, encode, digest_hex, verify_digest}

-- Over a small range, check every value by evaluation.
all_below : ℕ → (ℕ → Bool) → Bool
all_below zero p = true
all_below (suc n) p = p n && all_below n p

all_below-apply : (n : ℕ) (p : ℕ → Bool) (x : ℕ) → all_below n p ≡ true → x < n → p x ≡ true
unfolding all_below
all_below-apply zero p x h lt = absurd (omega arith)
all_below-apply (suc n) p x h lt = ground (arith, all_below-apply n p x)

hex_table : all_below 16 (λ i. is_ascii_hexdigit (hex_digit i)) ≡ true
unfolding all_below is_ascii_hexdigit hex_digit
hex_table = refl

hex_digit-is_ascii_hexdigit : (i : ℕ) → i < 16 → is_ascii_hexdigit (hex_digit i) ≡ true
hex_digit-is_ascii_hexdigit i h = all_below-apply 16 _ i hex_table h

pub length-encode : (bytes : Bytes) → length (encode bytes) ≡ 2 * length bytes
unfolding encode
length-encode [] = refl
length-encode (b ∷ bytes) = omega (arith, length-encode bytes)

abbrev pub IsByte : ℕ → Type 0
IsByte b = b < 256

pub all-encode : (bytes : Bytes) → All IsByte bytes → all is_ascii_hexdigit (encode bytes) ≡ true
unfolding encode
all-encode [] h = refl
all-encode (b ∷ bytes) h =
    rw
      (
        hex_digit-is_ascii_hexdigit (b / 16) (omega arith),
        hex_digit-is_ascii_hexdigit (b % 16) (omega arith),
      )
      (all-encode bytes h.1)

-- The number that a digit stands for.
digit_value : ℕ → ℕ
digit_value c = if ltb c 97 then c - 48 else c - 87

value_table : all_below 16 (λ i. digit_value (hex_digit i) == i) ≡ true
unfolding all_below digit_value hex_digit
value_table = refl

digit_value-hex_digit : (i : ℕ) → i < 16 → digit_value (hex_digit i) ≡ i
digit_value-hex_digit i h =
    ground (arith, all_below-apply 16 (λ j. digit_value (hex_digit j) == j) i value_table h)

hex_digit_inj : (i j : ℕ) → i < 16 → j < 16 → hex_digit i ≡ hex_digit j → i ≡ j
hex_digit_inj i j h k e = cc (digit_value-hex_digit i h, digit_value-hex_digit j k)

byte_of_digits : (b c : ℕ) → b / 16 ≡ c / 16 → b % 16 ≡ c % 16 → b ≡ c
byte_of_digits b c h l = omega arith

-- Two byte strings with one hexadecimal form are the same.
pub encode_inj : (xs ys : Bytes) → All IsByte xs → All IsByte ys → encode xs ≡ encode ys → xs ≡ ys
unfolding encode
encode_inj [] [] h k e = refl
encode_inj [] (y ∷ ys) h k e = cc
encode_inj (x ∷ xs) [] h k e = cc
encode_inj (x ∷ xs) (y ∷ ys) h k e =
    let first : hex_digit (x / 16) ≡ hex_digit (y / 16) = cc in
    let second : hex_digit (x % 16) ≡ hex_digit (y % 16) = cc in
    let rest : encode xs ≡ encode ys = cc in
    cons_eq
      (byte_of_digits x y (hex_digit_inj (x / 16) (y / 16) (omega arith) (omega arith) first)
        (hex_digit_inj (x % 16) (y % 16) (omega arith) (omega arith) second))
      (encode_inj xs ys h.1 k.1 rest)

-- What the `sha2` crate documents of SHA-256: the hash of any input is 32 bytes.
pub record IsSha256 (sha256 : Bytes → Bytes) : Type 0 where
  pub length_hash : (content : Bytes) → length (sha256 content) ≡ 32
  pub bytes_hash : (content : Bytes) → All IsByte (sha256 content)

module _ (sha256 : Bytes → Bytes) (hash : IsSha256 sha256) where
  -- The digest of any content has the form that `validate_digest` and `is_chunk_digest` ask for:
  -- 64 bytes, each a hexadecimal digit.
  pub digest_hex-IsDigest :
      (content : Bytes)
      → (length (digest_hex sha256 content) ≡ 64)
        × (all is_ascii_hexdigit (digest_hex sha256 content) ≡ true)
  unfolding digest_hex
  digest_hex-IsDigest content = (
    omega (arith, length-encode (sha256 content), hash.length_hash content),
    all-encode (sha256 content) (hash.bytes_hash content),
  )

  -- Two contents have one digest exactly when they have one hash, so a clash of keys is a
  -- collision of SHA-256.
  pub digest_hex-eq_iff :
      (a b : Bytes) → (digest_hex sha256 a ≡ digest_hex sha256 b) ↔ (sha256 a ≡ sha256 b)
  unfolding digest_hex
  digest_hex-eq_iff a b =
      (encode_inj (sha256 a) (sha256 b) (hash.bytes_hash a) (hash.bytes_hash b), λ e. ap encode e)

-- `verify_digest` accepts a payload exactly when its digest is the expected one, and reports the
-- expected and the actual digest exactly when it is not.
pub verify_digest_lem :
    (sha256 : Bytes → Bytes) (content : Bytes) (expected : Text)
    → ((verify_digest sha256 content expected ≡ ok tt) ↔ (digest_hex sha256 content ≡ expected))
      × ((verify_digest sha256 content expected
            ≡ err (digest_mismatch expected (digest_hex sha256 content)))
          ↔ (digest_hex sha256 content ≢ expected))
unfolding verify_digest
verify_digest_lem sha256 content expected = ground arith
