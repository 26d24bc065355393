-- ===== src/Store/Legacy.antt =====
-- Counts that were saved without a size: `backfill_refcount_sizes` of core/src/store/mod.rs in a
-- store with a codec.
use chunkstore.Base.{
  ℕ, ◌≡◌, ◌≢◌, ◌∙◌, refl, true, false, ◌==◌, some, arith, length, is_some, List, [], ◌∷◌, ltb, ◌&&◌,
  Bool-cases, inl, inr,
}
use chunkstore.Base.Text.{Text, Bytes}
use chunkstore.Base.Map.{lookup, insert}
use chunkstore.Error.{ok, err, invalid_argument}
use chunkstore.RefCount.{ChunkRef, mismatch, set, iter_refs}
use chunkstore.RefCount.Laws.{increment-mismatch, lookup-insert_self}
use chunkstore.Persistence.Keys.{IsDigest}
use chunkstore.Persistence.Refs.{save_refcount_run}
use chunkstore.Persistence.Keys.{starts_with-digest_refcount}
use chunkstore.Store.Digest.{is_chunk_digest}
use chunkstore.Store.Chunks.{store_chunk, put_blob, count_reference}
use chunkstore.Store.Open.{backfill, backfill_found, backfill_refcount_sizes, stale_refs}
use chunkstore.Store.World.{World}
use chunkstore.Store.Invariant.{WStore, view, digest, digest-IsDigest}
use chunkstore.Persistence.{refcount_index_key}
use chunkstore.Persistence.Index.{Indexed}
use chunkstore.Exec.{each}
use chunkstore.Store.Reading.{encoded_in}

IsDigest-is_chunk_digest : (d : Text) → IsDigest d → is_chunk_digest d ≡ true
unfolding is_chunk_digest
IsDigest-is_chunk_digest d h = ground arith

-- A count without a size is not 0.
stale_count :
    (refs : List (Text × ChunkRef)) (d : Text) (n : ℕ)
    → stale_refs refs ≡ (d, n) ∷ []
    → (n == 0) ≡ false
unfolding stale_refs
stale_count [] d n e = absurd (cc)
stale_count ((k, r) ∷ refs) d n e = elim (Bool-cases (r.size == 0 && ltb 0 r.count)) [
  | inl here ↦
      let e' : ◌≡◌ {A = List (Text × ℕ)} ((k, r.count) ∷ stale_refs refs) ((d, n) ∷ []) =
        rw here at e in
      let same : r.count ≡ n = cc in ground (arith, here)
  | inr other ↦ stale_count refs d n (rw other at e)
]

module _ (W : World) where
  refused :
      (t : WStore W) (c : Bytes) (r : ChunkRef)
      → t.codec ≡ W.codec
      → is_some (view W t (digest W c)) ≡ true
      → lookup (digest W c) t.refcount ≡ some r
      → r.size ≢ 0
      → length c ≢ 0
      → r.size ≢ length c
      → (store_chunk W.platform (digest W c) c t).0
        ≡ err (invalid_argument (mismatch (digest W c) r.size (length c)))
  unfolding store_chunk put_blob count_reference
  refused t c r coded held found p q ne =
      rw
        (
          encoded_in W t c coded,
          W.lawful.exists_lem,
          held,
          (increment-mismatch (digest W c) (digest W c) (length c) t.refcount r found p q ne).0,
        )
        refl

  -- Where one count was loaded without a size, the backfill records the length of the stored blob as
  -- its size. Where the codec makes that another length than the chunk's, neither of them 0, storing
  -- the chunk again is then refused. The index of the counts can be read.
  pub backfill-mismatch :
      (s : WStore W) (c : Bytes) (n : ℕ)
      → s.codec ≡ W.codec
      → stale_refs (iter_refs s.refcount) ≡ (digest W c, n) ∷ []
      → Indexed W.platform.json W.platform.backend W.json W.lawful s.backend refcount_index_key
          (λ d. is_some (lookup d s.refcount))
      → view W s (digest W c) ≡ some (W.coding.blob c)
      → length (W.coding.blob c) ≢ 0
      → length c ≢ 0
      → length (W.coding.blob c) ≢ length c
      → (t : WStore W) × (t.codec ≡ s.codec)
        × (backfill_refcount_sizes W.platform s.refcount s.backend ≡ (ok t.refcount, t.backend))
        × ((store_chunk W.platform (digest W c) c t).0
            ≡ err (invalid_argument (mismatch (digest W c) (length (W.coding.blob c)) (length c))))
  unfolding backfill_refcount_sizes backfill backfill_found set each
  backfill-mismatch s c n coded stale index held p q ne =
      let d = digest W c in
      let h = digest-IsDigest W c in
      let r : ChunkRef = record { count = n; size = length (W.coding.blob c) } in
      let (b', saved, _, _, outside) =
        save_refcount_run W.platform.json W.platform.backend W.json W.lawful s.refcount d r h _
          s.backend index in
      let some_count : (n == 0) ≡ false = stale_count s.refcount d n stale in
      let t : WStore W = record s { refcount = insert d r s.refcount; backend = b' } in
      let kept : view W t d ≡ some (W.coding.blob c) =
        outside d (starts_with-digest_refcount d h) ∙ held in
      (
        t,
        refl,
        rw (stale, W.lawful.get_lem, held, IsDigest-is_chunk_digest d h, some_count, saved) refl,
        refused t c r coded (rw kept refl) (lookup-insert_self d r s.refcount) p q ne,
      )
