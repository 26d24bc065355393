-- ===== src/Store/Open.antt =====
-- Opening a store: `open`, `open_with_codec`, `backfill_refcount_sizes` and `rebuild_stats`.
use chunkstore.Base.{
  ℕ, not, ◌&&◌, ◌==◌, ltb, if◌then◌else◌, Option, none, some, List, [], ◌∷◌, length,
}
use chunkstore.Base.Text.{Text, Bytes}
use chunkstore.Base.Word.{add, mul}
use chunkstore.Error.{Result, ok}
use chunkstore.Exec.{Exec, pure, continue, ◌>>=◌, each}
use chunkstore.Codec.{ChunkCodec}
use chunkstore.Manifest.{Manifest}
use chunkstore.Persistence.{load_manifests, load_refcounts, save_refcount}
use chunkstore.RefCount
use chunkstore.RefCount.{RefCount, ChunkRef, iter_refs}
use chunkstore.Stats.{Stats, default_stats}
use chunkstore.Store.Types.{Platform, gets, on_stats}
use chunkstore.Store.Chunks.{Store, chunk_size}
use chunkstore.Store.Digest.{is_chunk_digest}

-- The refcounts whose size is not known: `meta.size == 0 && meta.count > 0`.
unfoldable pub stale_refs : List (Text × ChunkRef) → List (Text × ℕ)
stale_refs [] = []
stale_refs ((digest, meta) ∷ refs) =
    let rest = stale_refs refs in
    if meta.size == 0 && ltb 0 meta.count then (digest, meta.count) ∷ rest else rest

module _ (P : Platform) where
  open P use {json, backend as B}

  -- One round of the loop, when the blob has been read. The counts change beside the backend.
  unfoldable pub backfill_found : Text → ℕ → Option Bytes → Exec (RefCount × B.State) (Unit {0})
  backfill_found digest count none t = (ok tt, t)
  backfill_found digest count (some content) (counts, b) =
      let (r, b') = save_refcount json B digest count (length content) b in
      if not (is_chunk_digest digest)
      then (ok tt, (counts, b))
      else (r, (RefCount.set digest count (length content) counts, b'))

  unfoldable pub backfill : Text × ℕ → Exec (RefCount × B.State) (Unit {0})
  unfolding backfill_found
  backfill (digest, count) (counts, b) =
      let (r, b') = B.get digest b in continue r (backfill_found digest count) (counts, b')

  unfoldable pub backfill_refcount_sizes : RefCount → Exec B.State RefCount
  unfolding stale_refs backfill
  backfill_refcount_sizes counts b =
      let (r, (counts', b')) = each backfill (stale_refs (iter_refs counts)) (counts, b) in
      continue r (λ _. pure counts') b'

  -- One round of the loop of `rebuild_stats`, on the local `stats`.
  unfoldable pub add_ref : Stats → Text × ChunkRef → Exec (Store P) Stats
  add_ref stats (digest, meta) = do
    size ← (if ltb 0 meta.size then pure meta.size else chunk_size P digest)
    pure (record stats {
      stored_bytes = add stats.stored_bytes size;
      total_bytes = add stats.total_bytes (mul size meta.count);
    })

  unfoldable pub add_refs : List (Text × ChunkRef) → Stats → Exec (Store P) Stats
  add_refs [] stats = pure stats
  add_refs (r ∷ refs) stats = do stats' ← add_ref stats r; add_refs refs stats'

  unfoldable pub rebuild_stats : Exec (Store P) (Unit {0})
  unfolding add_refs add_ref
  rebuild_stats = do
    refs ← gets (λ s. iter_refs s.refcount)
    stats ← add_refs refs default_stats
    on_stats (λ _. stats)

  -- The store that `open` makes of the backend when the metadata has been read.
  abbrev pub assemble : Manifest → RefCount → B.State → Store P
  assemble manifest refcount b = record {
    backend = b;
    manifest = manifest;
    refcount = refcount;
    stats = default_stats;
    codec = none;
  }

  -- `store.rebuild_stats()?; Ok(store)`
  abbrev pub with_stats : Store P → Result (Store P) × B.State
  with_stats store =
      let (r, store') = rebuild_stats store in continue r (λ _. pure store') store'.backend

  unfoldable pub open_store : Exec B.State (Store P)
  open_store = do
    manifest ← load_manifests json B
    counts ← load_refcounts json B
    refcount ← backfill_refcount_sizes counts
    (λ b. with_stats (assemble manifest refcount b))

  unfoldable pub open_with_codec : ChunkCodec → Exec B.State (Store P)
  open_with_codec codec = do store ← open_store; pure (record store { codec = some codec })

  -- A store opened with a codec or without.
  unfoldable pub open_as : Option ChunkCodec → Exec B.State (Store P)
  open_as none = open_store
  open_as (some codec) = open_with_codec codec

  -- `stats()`
  unfoldable pub stats_of : Exec (Store P) Stats
  stats_of = gets (λ s. s.stats)
