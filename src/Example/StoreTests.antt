-- ===== src/Example/StoreTests.antt =====
-- The theorems about a store, applied at the example stores.
use chunkstore.Base.{
  inl, ◌≡◌, refl, true, List, [], ◌∷◌, ◌++◌, none, arith, length, concat, map, All, is_some, ltb,
  ◌&&◌, not, ◌%◌,
}
use chunkstore.Base.Text.{Text, Bytes, codes}
use chunkstore.Base.Map.{Map, lookup, insert, remove}
use chunkstore.Base.Word.{word_size}
use chunkstore.Error.{ChunkStoreError, ok, err, not_found, invalid_argument}
use chunkstore.Backend.Lawful.{contains}
use chunkstore.Chunker.Trait.{ReadEvent, bytes}
use chunkstore.Chunker.Fixed.Split.{IsSplit, IsSplit-unique}
use chunkstore.Persistence.{save_manifest, load_manifests}
use chunkstore.Persistence.Keys.{index_name}
use chunkstore.Store.{
  read_chunk, ingest_chunks, delete, read, ingest_fixed, ingest_reader_fixed, fsck, FsckReport,
  open_as, is_chunk_digest,
}
use chunkstore.Store.Invariant.{WStore, Inv, nothing, digest, digest-IsDigest, occurs, view, named}
use chunkstore.Store.Tidy.{Tidy}
use chunkstore.Store.Reading.{Chunks, read_lem}
use chunkstore.Store.Contract.{Refines, ingest_chunks-Refines, delete-Refines}
use chunkstore.Store.Runs.{InOrder, Runs-InOrder, Runs-counts}
use chunkstore.Store.Ingest.{ingest_reader_fixed-eq-ingest_fixed}
use chunkstore.Store.Names.{ingest_chunks_nameless, save_manifest-index_name}
use chunkstore.Store.Fsck.{fsck_repair}
use chunkstore.RefCount.Laws.{count_of}
use chunkstore.Store.Overtaking.{overtaken, overtaken_lem}
use chunkstore.RefCount.{mismatch}
use chunkstore.Store.{backfill_refcount_sizes, store_chunk}
use chunkstore.Store.Legacy.{backfill-mismatch}
use chunkstore.Example.Sealed.{sealed, legacy, blob_there, legacy-Indexed, one_stale}
use chunkstore.Store.Statistics.{total_bytes-read, read_length}
use chunkstore.Base.Map.{total}
use chunkstore.Store.RoundTrip.{read-ingest_reader_fixed}
use chunkstore.Store.Reopen.{reopen}
use chunkstore.Example.Encoding.{numbers-IsJson}
use chunkstore.Example.Platform.{world, platform, first}
use chunkstore.Example.Stores.{
  name, name-IsFileId, chunks, chunks-known, empty, empty-InOrder, room, stored, stored_contents,
  stored_runs, stored-InOrder, leaving, leaving-Inv, leaving-once, stored-names, stored_sizes,
  listed_keys, stored-listed,
}

Runs-InOrder_example : InOrder world stored stored_contents
Runs-InOrder_example = Runs-InOrder world stored_runs

ingest_chunks-Refines_example :
    (s' : WStore world) × (ingest_chunks platform name chunks empty
      ≡ (ok (map (digest world) chunks), s'))
    × Inv world nothing s'
    × Refines world s' (insert name (concat chunks) [])
ingest_chunks-Refines_example =
    ingest_chunks-Refines world empty name chunks [] empty-InOrder.inv empty-InOrder.refines
      name-IsFileId chunks-known room

delete-Refines_example :
    (s' : WStore world) × (delete platform name stored ≡ (ok tt, s'))
    × Inv world nothing s'
    × Refines world s' (remove name stored_contents)
delete-Refines_example =
    delete-Refines world stored name (map (digest world) chunks) stored_contents stored-InOrder.inv
      stored-InOrder.refines stored-names

Runs-counts_example :
    (chunkstore.RefCount.Laws.count_of (lookup (digest world first) stored.refcount)
      ≡ named (digest world first) stored.manifest.files)
    × (is_some (view world stored (digest world first))
        ≡ ltb 0 (named (digest world first) stored.manifest.files))
Runs-counts_example =
    Runs-counts world stored_runs (digest world first) (digest-IsDigest world first)

read_lem_example :
    (cs : List Bytes) × Chunks world stored (map (digest world) chunks) cs
    × (map (digest world) cs ≡ map (digest world) chunks)
    × (read platform name stored ≡ (ok (concat cs), stored))
read_lem_example =
    read_lem world nothing stored stored-InOrder.inv name (map (digest world) chunks) stored-names

whole : Bytes
whole = 1 ∷ 2 ∷ 3 ∷ []

abbrev pieces : List ReadEvent
pieces = bytes (1 ∷ []) ∷ bytes (2 ∷ 3 ∷ []) ∷ []

ingest_reader_fixed-eq-ingest_fixed_example :
    ingest_reader_fixed platform name pieces 2 empty
    ≡ ingest_fixed platform name (1 ∷ 2 ∷ 3 ∷ []) 2 empty
ingest_reader_fixed-eq-ingest_fixed_example =
    ingest_reader_fixed-eq-ingest_fixed platform name pieces (1 ∷ 2 ∷ 3 ∷ []) 2 empty refl

ingest_chunks_nameless_example :
    (s' : WStore world) × (ingest_chunks platform [] chunks empty
      ≡ (err (invalid_argument (codes "file_id cannot be empty")), s'))
    × (s'.manifest ≡ empty.manifest)
    × Inv world (λ d. occurs d (map (digest world) chunks)) s'
ingest_chunks_nameless_example =
    ingest_chunks_nameless world empty chunks empty-InOrder.inv chunks-known room

save_manifest-index_name_example :
    (e : ChunkStoreError) × (b' : Map Bytes) × (save_manifest platform.json platform.backend
        index_name
        (digest world first ∷ [])
        2
        []
      ≡ (err e, b'))
    × (load_manifests platform.json platform.backend b' ≡ (err e, b'))
save_manifest-index_name_example =
    save_manifest-index_name platform.json platform.backend numbers-IsJson world.lawful
      (digest world first ∷ []) 2 [] (digest-IsDigest world first, tt)

reopen_example :
    (t : WStore world) × (open_as platform none stored.backend ≡ (ok t, stored.backend))
    × Inv world nothing t
    × Tidy world t
    × ((f : Text) → (read platform f t).0 ≡ (read platform f stored).0)
    × ((d : Text) → lookup d t.refcount ≡ lookup d stored.refcount)
    × (t.stats.stored_bytes ≡ stored.stats.stored_bytes)
    × (t.stats.total_bytes ≡ stored.stats.total_bytes)
    × (t.stats.gc_chunks ≡ 0)
reopen_example = reopen world stored stored-InOrder.inv stored-InOrder.tidy stored_sizes

fsck_repair_example :
    (report : FsckReport) × (s' : WStore world) × (fsck platform true stored ≡ (ok report, s'))
    × (report.missing_blobs ≡ [])
    × (report.repaired ≡ length report.orphan_blobs % word_size)
    × ((d : Text)
        → contains d report.orphan_blobs ≡ (
            is_chunk_digest d
            && (is_some (view world stored d) && not (is_some (lookup d stored.refcount)))))
    × Inv world nothing s'
    × ((d : Text)
        → (is_chunk_digest d && is_some (view world s' d))
          ≡ (is_chunk_digest d && is_some (lookup d s'.refcount)))
fsck_repair_example = fsck_repair world nothing stored stored-InOrder.inv listed_keys stored-listed

overtaken_lem_example :
    (t : WStore world) × (overtaken platform
        (digest world first)
        (world.coding.blob first)
        2
        leaving
      ≡ (ok true, t))
    × (count_of (lookup (digest world first) t.refcount) ≡ 1)
    × (read_chunk platform (digest world first) t
        ≡ (err (not_found (codes "chunk " ++ digest world first)), t))
overtaken_lem_example =
    overtaken_lem world nothing leaving first leaving-Inv (inl refl) leaving-once

backfill-mismatch_example :
    (t : WStore sealed) × (t.codec ≡ legacy.codec)
    × (backfill_refcount_sizes platform legacy.refcount legacy.backend ≡ (ok t.refcount, t.backend))
    × ((store_chunk platform (digest sealed first) first t).0
        ≡ err (invalid_argument (mismatch (digest sealed first) 3 2)))
backfill-mismatch_example =
    backfill-mismatch sealed legacy first 1 refl one_stale legacy-Indexed blob_there
      (λ e. omega (arith, e)) (λ e. omega (arith, e)) (λ e. omega (arith, e))

total_bytes-read_example :
    stored.stats.total_bytes ≡ total (λ f ds. read_length world stored f) stored.manifest.files
total_bytes-read_example = total_bytes-read world stored stored-InOrder.inv stored-InOrder.tidy

abbrev both : List ReadEvent
both = bytes (1 ∷ 2 ∷ 3 ∷ []) ∷ bytes (4 ∷ []) ∷ []

-- The content of `both` is cut into the two known chunks and in no other way.
cut_known : (cs : List Bytes) → concat cs ≡ concat chunks → IsSplit 2 cs → All world.Known cs
cut_known cs whole split =
    let same : cs ≡ chunks =
      IsSplit-unique 2 cs chunks (omega arith) split (refl, (omega arith, omega arith)) whole in
    rw same chunks-known

read-ingest_reader_fixed_example :
    (s' : WStore world) × (ds : List Text) × (ingest_reader_fixed platform name both 2 empty
      ≡ (ok ds, s'))
    × (read platform name s' ≡ (ok (concat chunks), s'))
    × Inv world nothing s'
unfolding lookup
read-ingest_reader_fixed_example =
    read-ingest_reader_fixed world empty name both (concat chunks) 2 empty-InOrder.inv name-IsFileId
      (omega arith) refl cut_known (λ d. omega arith)
