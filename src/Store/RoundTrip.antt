-- ===== src/Store/RoundTrip.antt =====
-- `ingest_fixed`, `ingest_reader_fixed` and `read` of core/src/store/mod.rs, one after the other.
use chunkstore.Base.{
  ℕ, ◌≤◌, ◌<◌, ◌≡◌, ◌∙◌, refl, ap, some, List, [], ◌∷◌, arith, length, length-append, concat, All,
  map,
}
use chunkstore.Base.Text.{Text, Bytes}
use chunkstore.Base.Map.{lookup, lookup-insert}
use chunkstore.Error.{ok}
use chunkstore.Chunker.Trait.{ReadEvent, content}
use chunkstore.Chunker.Fixed.Split.{IsSplit}
use chunkstore.Persistence.Files.{IsFileId}
use chunkstore.Store.Files.{ingest_reader_fixed, read}
use chunkstore.Store.World.{World}
use chunkstore.Store.Invariant.{WStore, Inv, nothing, digest}
use chunkstore.Store.Session.{Room}
use chunkstore.Store.Commit.{ingest_chunks_lem}
use chunkstore.Store.Contract.{read_ingested}
use chunkstore.Store.Ingest.{ingest_fixed_lem, ingest_reader_fixed-eq-ingest_fixed}

length-IsSplit : (n : ℕ) (cs : List Bytes) → 0 < n → IsSplit n cs → length cs ≤ length (concat cs)
length-IsSplit n [] p h = omega arith
length-IsSplit n (c ∷ []) p h = omega (arith, h.0, length-append c [])
length-IsSplit n (c ∷ d ∷ cs) p h =
    omega (arith, h.0, length-IsSplit n (d ∷ cs) p h.1, length-append c (concat (d ∷ cs)))

module _ (W : World) where
  -- A file that is streamed into a valid store in chunks of one positive size, by a reader that does
  -- not fail, reads as the bytes that the reader gave, and the store stays valid. The name is neither
  -- empty nor that of the index, the chunks that the content is cut into are known, and no reference
  -- count can become full.
  pub read-ingest_reader_fixed :
      (s : WStore W) (f : Text) (reader : List ReadEvent) (data' : Bytes) (n : ℕ)
      → Inv W nothing s
      → IsFileId f
      → 0 < n
      → content reader ≡ some data'
      → ((cs : List Bytes) → concat cs ≡ data' → IsSplit n cs → All W.Known cs)
      → Room W s (length data')
      → (s' : WStore W) × (ds : List Text) × (ingest_reader_fixed W.platform f reader n s
          ≡ (ok ds, s'))
        × (read W.platform f s' ≡ (ok data', s'))
        × Inv W nothing s'
  read-ingest_reader_fixed s f reader data' n inv id p e cut room =
      let (cs, whole, split, run) = ingest_fixed_lem W.platform data' n p in
      let known = cut cs whole split in
      let fits : Room W s (length cs) =
        λ d. omega (arith, room d, length-IsSplit n cs p split, ap length whole) in
      let (s', ingested, inv', files, tidy) = ingest_chunks_lem W s f cs inv id known fits in
      let found : lookup f s'.manifest.files ≡ some (map (digest W) cs) =
        rw (files, lookup-insert) (ground arith) in
      (
        s',
        map (digest W) cs,
        ingest_reader_fixed-eq-ingest_fixed W.platform f reader data' n s e ∙ run f s ∙ ingested,
        read_ingested W s' f cs inv' found known ∙ rw whole refl,
        inv',
      )
