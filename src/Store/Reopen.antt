-- ===== src/Store/Reopen.antt =====
-- `open` and `open_with_codec` of core/src/store/mod.rs on the backend that a store leaves.
use chunkstore.Base.{ℕ, ◌+◌, ◌<◌, ◌≡◌, ◌∙◌, sym, refl, Option, none, some, arith, All}
use chunkstore.Base.Text.{Text}
use chunkstore.Base.Word.{word_size}
use chunkstore.Base.Map.{lookup, NodupKeys, total, total-same}
use chunkstore.Codec.{ChunkCodec}
use chunkstore.Error.{ok}
use chunkstore.Exec.{each}
use chunkstore.Manifest.{Manifest}
use chunkstore.RefCount.{RefCount, ChunkRef}
use chunkstore.Stats.{Stats, default_stats}
use chunkstore.Persistence.{load_manifests, load_refcounts}
use chunkstore.Persistence.Load.{load_refcounts_lem, load_manifests_lem}
use chunkstore.Store.Open.{
  backfill_refcount_sizes, rebuild_stats, open_store, open_with_codec, open_as, assemble,
  with_stats,
}
use chunkstore.Store.Files.{read}
use chunkstore.Store.World.{World}
use chunkstore.Store.Invariant.{WStore, Inv, nothing, named, occurs, Holds-move}
use chunkstore.Store.Frames.{Files}
use chunkstore.Store.Tidy.{Tidy, stored-le-total, size_at, bytes_at}
use chunkstore.Store.Reading.{read_same}
use chunkstore.Store.Rebuild.{IsMeasured, entries-All, stale_refs_none, add_refs_lem}

module _ (W : World) where
  -- The metadata that was loaded: the same entries, in another order.
  module _ (s : WStore W) (inv : Inv W nothing s) (tidy : Tidy W s) (m : Manifest)
      (counts : RefCount) (same_files : (f : Text) → lookup f m.files ≡ lookup f s.manifest.files)
      (same_counts : (d : Text) → lookup d counts ≡ lookup d s.refcount)
      (disk : Files W s.backend m) (files_nodup : NodupKeys m.files)
      (refs_nodup : NodupKeys counts) where
    abbrev stats : Stats
    stats = record default_stats {
      stored_bytes = total size_at counts;
      total_bytes = total bytes_at counts;
    }

    abbrev reopened : WStore W
    reopened = record {
      backend = s.backend;
      manifest = m;
      refcount = counts;
      stats = stats;
      codec = W.codec;
    }

    same_total : (f : Text → ChunkRef → ℕ) → total f counts ≡ total f s.refcount
    same_total f = total-same f counts s.refcount refs_nodup inv.refs_nodup same_counts

    same_named : (d : Text) → named d m.files ≡ named d s.manifest.files
    same_named d =
        total-same (λ _ ds. occurs d ds) m.files s.manifest.files files_nodup inv.files_nodup
          same_files

    reopened-Inv : Inv W nothing reopened
    reopened-Inv = record {
      codec = refl;
      files_nodup = files_nodup;
      refs_nodup = refs_nodup;
      counts = λ d. rw (same_counts d, same_named d) (inv.counts d);
      positive = λ d r found. inv.positive d r (sym (same_counts d) ∙ found);
      honest = λ d h there. (Holds-move W s reopened d refl (inv.honest d h there)).0;
      present = λ d r found.
          let (h, size) = inv.present d r (sym (same_counts d) ∙ found) in
          let (k, content) = Holds-move W s reopened d refl h in (k, rw content size);
      disk_refs = record {
        index = record {
          ids = inv.disk_refs.index.ids;
          stored = inv.disk_refs.index.stored;
          agrees = λ d. rw (same_counts d) (inv.disk_refs.index.agrees d);
        };
        valid = λ d r found. inv.disk_refs.valid d r (sym (same_counts d) ∙ found);
        records = λ d r found. inv.disk_refs.records d r (sym (same_counts d) ∙ found);
      };
      disk_files = disk;
    }

    reopened-Tidy : Tidy W reopened
    reopened-Tidy = record {
      counted = λ d h there. rw (same_counts d) (tidy.counted d h there);
      stored_bytes = refl;
      total_bytes = refl;
      fits = rw (same_total bytes_at, ← tidy.total_bytes) tidy.fits;
    }

    rebuild_lem :
        All IsMeasured counts
        → with_stats W.platform (assemble W.platform m counts s.backend)
          ≡ (ok (record reopened { codec = none }), s.backend)
    unfolding rebuild_stats
    rebuild_lem measured =
        let zero_stored : 0 + total size_at counts ≡ total size_at counts = omega arith in
        let zero_total : 0 + total bytes_at counts ≡ total bytes_at counts = omega arith in
        let fits : total bytes_at counts < word_size = reopened-Tidy.fits in
        let smaller = stored-le-total W nothing reopened reopened-Inv in
        rw
          (
            add_refs_lem W counts default_stats
                (record reopened { stats = default_stats; codec = none }) measured (omega arith)
                (omega arith),
            zero_stored,
            zero_total,
          )
          refl

    opened :
        All IsMeasured counts
        → load_manifests W.platform.json W.platform.backend s.backend ≡ (ok m, s.backend)
        → load_refcounts W.platform.json W.platform.backend s.backend ≡ (ok counts, s.backend)
        → open_store W.platform s.backend ≡ (ok (record reopened { codec = none }), s.backend)
    unfolding open_store backfill_refcount_sizes each
    opened measured manifests refcounts =
        rw (manifests, refcounts, stale_refs_none counts measured) (rebuild_lem measured)

    opened_as :
        (codec : Option ChunkCodec)
        → open_store W.platform s.backend ≡ (ok (record reopened { codec = none }), s.backend)
        → open_as W.platform codec s.backend ≡ (ok (record reopened { codec = codec }), s.backend)
    unfolding open_as open_with_codec
    opened_as none e = e
    opened_as (some codec) e = rw e refl

  -- Opening the backend of a store in order, with the store's codec, changes nothing there and gives
  -- a store in order that reads every file alike and has the same reference counts and byte totals,
  -- where no counted size is 0; the number of collected chunks starts again at 0.
  pub reopen :
      (s : WStore W)
      → Inv W nothing s
      → Tidy W s
      → ((d : Text) (r : ChunkRef) → lookup d s.refcount ≡ some r → 0 < r.size)
      → (t : WStore W) × (open_as W.platform W.codec s.backend ≡ (ok t, s.backend))
        × Inv W nothing t
        × Tidy W t
        × ((f : Text) → (read W.platform f t).0 ≡ (read W.platform f s).0)
        × ((d : Text) → lookup d t.refcount ≡ lookup d s.refcount)
        × (t.stats.stored_bytes ≡ s.stats.stored_bytes)
        × (t.stats.total_bytes ≡ s.stats.total_bytes)
        × (t.stats.gc_chunks ≡ 0)
  reopen s inv tidy measured =
      let (m, manifests, same_files, disk, files_nodup) =
        load_manifests_lem W.platform.json W.platform.backend W.json W.lawful s.backend s.manifest
          inv.disk_files in
      let (counts, refcounts, same_counts, refs_nodup) =
        load_refcounts_lem W.platform.json W.platform.backend W.json W.lawful s.backend s.refcount
          inv.disk_refs (λ d r found. (inv.positive d r found).0) in
      let sized =
        entries-All counts refs_nodup (λ d r found. measured d r (sym (same_counts d) ∙ found)) in
      let ok_inv =
        reopened-Inv s inv tidy m counts same_files same_counts disk files_nodup refs_nodup in
      (
        reopened s inv tidy m counts same_files same_counts disk files_nodup refs_nodup,
        opened_as s inv tidy m counts same_files same_counts disk files_nodup refs_nodup W.codec (
            opened s inv tidy m counts same_files same_counts disk files_nodup refs_nodup sized
              manifests refcounts),
        ok_inv,
        reopened-Tidy s inv tidy m counts same_files same_counts disk files_nodup refs_nodup,
        λ f. read_same W nothing nothing s _ f inv ok_inv (same_files f),
        same_counts,
        same_total s inv tidy m counts same_files same_counts disk files_nodup refs_nodup size_at
            ∙ sym tidy.stored_bytes,
        same_total s inv tidy m counts same_files same_counts disk files_nodup refs_nodup bytes_at
            ∙ sym tidy.total_bytes,
        refl,
      )
