-- ===== src/Example/Platform.antt =====
-- The platform and its world: two chunks are known, and their digests differ.
use chunkstore.Base.{ℕ, ◌≡◌, ◌≢◌, ap, sym, arith, ◌∙◌, ◌⊎◌, inl, inr, [], ◌∷◌, none}
use chunkstore.Base.Text.{Text, Bytes}
use chunkstore.Hasher.{digest_hex, encode, hex_digit}
use chunkstore.Backend.Memory.{memory_backend, memory_backend-IsLawful}
use chunkstore.Store.{Platform}
use chunkstore.Store.World.{World, no_codec-IsCoding}
use chunkstore.Example.Encoding.{numbers, numbers-IsJson}
use chunkstore.Example.Hash.{padded, padded-IsSha256, every_byte}

abbrev pub platform : Platform
platform = record {
  sha256 = padded;
  json = numbers;
  fast_cdc = every_byte;
  backend = memory_backend;
}

abbrev pub first : Bytes
first = 1 ∷ 2 ∷ []

abbrev pub second : Bytes
second = 3 ∷ 4 ∷ []

abbrev pub IsKnown : Bytes → Type 0
IsKnown c = (c ≡ first) ⊎ (c ≡ second)

second_byte : Text → ℕ
second_byte (a ∷ b ∷ text) = b
second_byte (a ∷ []) = 0
second_byte [] = 0

differ : digest_hex padded first ≢ digest_hex padded second
unfolding digest_hex encode hex_digit padded second_byte
differ e = let bad : 49 ≡ 51 = ap second_byte e in omega (arith, bad)

pub no_clash :
    (a b : Bytes) → IsKnown a → IsKnown b → digest_hex padded a ≡ digest_hex padded b → a ≡ b
no_clash a b (inl x) (inl y) e = x ∙ sym y
no_clash a b (inl x) (inr y) e =
    absurd (differ (ap (digest_hex padded) (sym x) ∙ e ∙ ap (digest_hex padded) y))
no_clash a b (inr x) (inl y) e =
    absurd (differ (ap (digest_hex padded) (sym y) ∙ sym e ∙ ap (digest_hex padded) x))
no_clash a b (inr x) (inr y) e = x ∙ sym y

abbrev pub world : World
world = record {
  platform = platform;
  lawful = memory_backend-IsLawful.0;
  json = numbers-IsJson;
  hash = padded-IsSha256;
  codec = none;
  coding = no_codec-IsCoding;
  Known = IsKnown;
  no_clash = no_clash;
}
