-- ===== src/Store/World.antt =====
-- What the theorems about a store assume of the code that it is built on.
use chunkstore.Base.{◌≡◌, refl, Option, none, some}
use chunkstore.Base.Text.{Bytes}
use chunkstore.Error.{ok}
use chunkstore.Backend.Lawful.{IsLawful}
use chunkstore.Codec.{ChunkCodec, IsCodec}
use chunkstore.Json.{IsJson}
use chunkstore.Hasher.{digest_hex}
use chunkstore.Hasher.Laws.{IsSha256}
use chunkstore.Store.Types.{Platform}
use chunkstore.Store.Chunks.{encode_with, decode_with}

-- A store's codec, or none, gives back what it was given.
pub record IsCoding (codec : Option ChunkCodec) : Type 0 where
  pub blob : Bytes → Bytes
  pub encoded : (c : Bytes) → encode_with codec c ≡ ok (blob c)
  pub decoded : (c : Bytes) → decode_with codec (blob c) ≡ ok c

pub no_codec-IsCoding : IsCoding none
no_codec-IsCoding = record { blob = λ c. c; encoded = λ c. refl; decoded = λ c. refl }

pub codec-IsCoding : (codec : ChunkCodec) → IsCodec codec → IsCoding (some codec)
codec-IsCoding codec h = record { blob = h.encoded; encoded = h.encode_lem; decoded = h.decode_lem }

-- A platform, and the laws of its parts. SHA-256 has collisions, so it is not assumed to be
-- injective: `Known` are the contents that the program meets, and no two of them clash.
pub record World : Type 1 where
  pub platform : Platform
  pub lawful : IsLawful platform.backend
  pub json : IsJson platform.json
  pub hash : IsSha256 platform.sha256
  pub codec : Option ChunkCodec
  pub coding : IsCoding codec
  pub Known : Bytes → Type 0
  pub no_clash :
      (a b : Bytes)
      → Known a
      → Known b
      → digest_hex platform.sha256 a ≡ digest_hex platform.sha256 b
      → a ≡ b
