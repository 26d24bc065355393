-- ===== src/Example/Sealed.antt =====
-- A codec that puts one byte in front, the platform with it, and a backend on which one chunk lies
-- whose count was saved without a size.
use chunkstore.Base.{◌≡◌, ◌≢◌, ◌∙◌, refl, ap, sym, inl, some, is_some, [], ◌∷◌, arith}
use chunkstore.Base.Text.{Text, Bytes, codes, Text-discrete, is_ascii_hexdigit}
use chunkstore.Base.Map.{Map, lookup, insert, lookup-insert}
use chunkstore.Error.{Result, ok, err, invalid_argument}
use chunkstore.Codec.{ChunkCodec}
use chunkstore.Manifest
use chunkstore.Stats.{default_stats}
use chunkstore.Backend.Memory.{memory_backend-IsLawful}
use chunkstore.Persistence.{
  refcount_index_key, refcount_key, load_refcounts, read_string_list, parse_refcount_record,
  validate_digest,
}
use chunkstore.Persistence.Keys.{IsDigest-no-underscore}
use chunkstore.Store.World.{World}
use chunkstore.Store.Invariant.{WStore, view, digest, digest-IsDigest}
use chunkstore.Store.{stale_refs}
use chunkstore.Persistence.Index.{Indexed}
use chunkstore.Example.Encoding.{
  numbers, numbers-IsJson, list_bytes_lem, write_list, read_list, read_refcount,
}
use chunkstore.Example.Hash.{padded, padded-IsSha256}
use chunkstore.Hasher.{digest_hex, encode, hex_digit}
use chunkstore.RefCount.{set}
use chunkstore.Example.Platform.{platform, first, IsKnown, no_clash}

abbrev pub strip : Bytes → Result Bytes
strip [] = err (invalid_argument [])
strip (x ∷ stored) = ok stored

abbrev pub sealing : ChunkCodec
sealing = record { encode = λ p. ok (9 ∷ p); decode = strip }

abbrev pub sealed : World
sealed = record {
  platform = platform;
  lawful = memory_backend-IsLawful.0;
  json = numbers-IsJson;
  hash = padded-IsSha256;
  codec = some sealing;
  coding = record { blob = λ p. 9 ∷ p; encoded = λ p. refl; decoded = λ p. refl };
  Known = IsKnown;
  no_clash = no_clash;
}

abbrev pub d : Text
d = digest sealed first

-- One chunk is there, and its count as a number alone, as older versions wrote it.
abbrev pub legacy_backend : Map Bytes
legacy_backend =
    insert refcount_index_key (write_list (d ∷ []))
      (insert (refcount_key d) (1 ∷ []) (insert d (9 ∷ first) []))

-- The store as it is when its counts have been loaded.
abbrev pub legacy : WStore sealed
legacy = record {
  backend = legacy_backend;
  manifest = Manifest.new;
  refcount = (d, record { count = 1; size = 0 }) ∷ [];
  stats = default_stats;
  codec = some sealing;
}

not_index : refcount_index_key ≢ d
unfolding refcount_index_key codes
not_index e = IsDigest-no-underscore d _ (digest-IsDigest sealed first) (sym e)

not_record : refcount_key d ≢ d
unfolding refcount_key codes
not_record e = IsDigest-no-underscore d _ (digest-IsDigest sealed first) (sym e)

pub blob_there : view sealed legacy d ≡ some (9 ∷ first)
blob_there =
    memory_backend-IsLawful.1 legacy.backend d
    ∙ ground (
      arith,
      not_index,
      not_record,
      lookup-insert d refcount_index_key (write_list (d ∷ []))
          (insert (refcount_key d) (1 ∷ []) (insert d (9 ∷ first) [])),
      lookup-insert d (refcount_key d) (1 ∷ []) (insert d (9 ∷ first) []),
      lookup-insert d d (9 ∷ first) [],
    )

index_there : view sealed legacy refcount_index_key ≡ some (write_list (d ∷ []))
index_there =
    memory_backend-IsLawful.1 legacy.backend refcount_index_key
    ∙ ground (
      arith,
      lookup-insert refcount_index_key refcount_index_key (write_list (d ∷ []))
          (insert (refcount_key d) (1 ∷ []) (insert d (9 ∷ first) [])),
    )

pub legacy-Indexed :
    Indexed numbers platform.backend sealed.json sealed.lawful legacy.backend refcount_index_key
      (λ k. is_some (lookup k legacy.refcount))
unfolding lookup
legacy-Indexed = record {
  ids = d ∷ [];
  stored = inl (index_there ∙ ap some (sym (list_bytes_lem (d ∷ []))));
  agrees = λ k. ground arith;
}

pub one_stale : stale_refs legacy.refcount ≡ (d, 1) ∷ []
unfolding stale_refs
one_stale = refl

-- Loading the counts gives those of the store.
test_loaded :
    load_refcounts numbers platform.backend legacy_backend ≡ (ok legacy.refcount, legacy_backend)
unfolding numbers load_refcounts read_string_list validate_digest refcount_key refcount_index_key
    parse_refcount_record codes read_list write_list read_refcount lookup insert Text-discrete
    padded digest_hex encode hex_digit set is_ascii_hexdigit
test_loaded = refl
