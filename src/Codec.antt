-- ===== src/Codec.antt =====
-- core/src/store/codec.rs: the trait `ChunkCodec`, which an application implements, and the codec
-- that changes nothing.
use chunkstore.Base.{◌≡◌, refl}
use chunkstore.Base.Text.{Bytes}
use chunkstore.Error.{Result, ok}

pub record ChunkCodec : Type 0 where
  pub encode : Bytes → Result Bytes
  pub decode : Bytes → Result Bytes

-- What the trait asks of an implementation: `decode(encode(p)) == p`.
pub record IsCodec (codec : ChunkCodec) : Type 0 where
  pub encoded : Bytes → Bytes
  pub encode_lem : (plaintext : Bytes) → codec.encode plaintext ≡ ok (encoded plaintext)
  pub decode_lem : (plaintext : Bytes) → codec.decode (encoded plaintext) ≡ ok plaintext

abbrev pub identity_codec : ChunkCodec
identity_codec = record { encode = λ plaintext. ok plaintext; decode = λ stored. ok stored }

pub identity_codec-IsCodec : IsCodec identity_codec
identity_codec-IsCodec = record { encoded = λ p. p; encode_lem = λ p. refl; decode_lem = λ p. refl }
