-- ===== src/Store/Rebuild.antt =====
-- `rebuild_stats` and the filter of `backfill_refcount_sizes` in core/src/store/mod.rs, on counts whose sizes are
-- known.
use native.Mathlib.Nat.{add_assoc}
use chunkstore.Base.{◌+◌, ◌*◌, ◌%◌, ◌<◌, ◌≡◌, ◌∙◌, refl, true, ltb, some, List, [], ◌∷◌, arith, All}
use chunkstore.Base.Text.{Text}
use chunkstore.Base.Word.{word_size, add, mul}
use chunkstore.Base.Map.{Map, lookup, NodupKeys, total}
use chunkstore.Error.{ok}
use chunkstore.RefCount.{ChunkRef}
use chunkstore.Stats.{Stats}
use chunkstore.Store.Open.{stale_refs, add_ref, add_refs}
use chunkstore.Store.World.{World}
use chunkstore.Store.Invariant.{WStore}
use chunkstore.Store.Tidy.{size_at, bytes_at}

-- An entry whose size is known.
abbrev pub IsMeasured : Text × ChunkRef → Type 0
IsMeasured (d, r) = 0 < r.size

pub entries-All :
    (counts : Map ChunkRef)
    → NodupKeys counts
    → ((d : Text) (r : ChunkRef) → lookup d counts ≡ some r → 0 < r.size)
    → All IsMeasured counts
unfolding lookup
entries-All [] nodup h = tt
entries-All ((d, r) ∷ counts) nodup h =
    (h d r (ground arith), entries-All counts nodup.1 (λ e q found. h e q (ground arith)))

pub stale_refs_none : (refs : List (Text × ChunkRef)) → All IsMeasured refs → stale_refs refs ≡ []
unfolding stale_refs
stale_refs_none [] h = refl
stale_refs_none ((d, r) ∷ refs) h = ground (arith, stale_refs_none refs h.1)

module _ (W : World) where
  pub add_refs_lem :
      (refs : List (Text × ChunkRef)) (stats : Stats) (s : WStore W)
      → All IsMeasured refs
      → stats.stored_bytes + total size_at refs < word_size
      → stats.total_bytes + total bytes_at refs < word_size
      → add_refs W.platform refs stats s ≡ (
        ok (record stats {
          stored_bytes = stats.stored_bytes + total size_at refs;
          total_bytes = stats.total_bytes + total bytes_at refs;
        }),
        s,
      )
  unfolding add_refs add_ref add mul
  add_refs_lem [] stats s h k l =
      let stored_same : stats.stored_bytes + 0 ≡ stats.stored_bytes = omega arith in
      let total_same : stats.total_bytes + 0 ≡ stats.total_bytes = omega arith in
      rw (stored_same, total_same) refl
  add_refs_lem ((d, r) ∷ refs) stats s h k l =
      let known : ltb 0 r.size ≡ true = ground (arith, h.0) in
      let stored : (stats.stored_bytes + r.size) % word_size ≡ stats.stored_bytes + r.size =
        omega arith in
      let product : (r.size * r.count) % word_size ≡ r.size * r.count = omega arith in
      let all_bytes : (stats.total_bytes + r.size * r.count) % word_size
          ≡ stats.total_bytes + r.size * r.count =
        omega arith in
      rw (known, product, stored, all_bytes)
        (add_refs_lem refs
            (record stats {
              stored_bytes = stats.stored_bytes + r.size;
              total_bytes = stats.total_bytes + r.size * r.count;
            })
            s h.1 (omega arith) (omega arith)
          ∙ rw (add_assoc, add_assoc) refl)
