-- ===== src/Store/Fsck.antt =====
-- What `ChunkStore::fsck` of core/src/store/mod.rs finds, and what it repairs.
use chunkstore.Base.{
  ◌+◌, ◌%◌, ◌≡◌, ◌∙◌, refl, Bool, true, false, not, ◌&&◌, none, some, List, [], arith, length,
  if◌then◌else◌, is_some, Option-cases, inl, inr,
}
use chunkstore.Base.Text.{Text}
use chunkstore.Base.Word.{word_size}
use chunkstore.Base.Map.{lookup}
use chunkstore.Error.{Result, ok}
use chunkstore.Backend.Lawful.{contains, starts_with}
use chunkstore.Persistence.Keys.{
  IsDigest, starts_with-digest_manifest, starts_with-digest_refcount, manifest_prefix,
  refcount_prefix,
}
use chunkstore.Persistence.Refs.{DiskRefs-frame}
use chunkstore.Persistence.Files.{DiskFiles-frame}
use chunkstore.Store.Digest.{is_chunk_digest}
use chunkstore.Store.Check.{FsckReport, fsck, orphans, collect_orphans, unlink}
use chunkstore.Store.World.{World}
use chunkstore.Store.Invariant.{WStore, Inv, Pending, view, Holds-move}
use chunkstore.Store.Tidy.{Tidy}
use chunkstore.Store.Scan.{
  is_chunk_digest_lem, keys_of, contains-keys_of, contains-orphans, none_contained,
  find_missing_none, counted_present, without, view-without, unlink_lem,
}

module _ (W : World) where
  module _ (p : Pending) (s : WStore W) (inv : Inv W p s) where
    module _ (keys : List Text) (listed : W.lawful.listed [] s.backend ≡ some keys) where
      abbrev stray : List Text
      stray = orphans (keys_of s.refcount) keys

      -- The orphans are the blobs that nothing counts.
      contains-stray :
          (d : Text)
          → contains d stray
            ≡ (is_chunk_digest d && (is_some (view W s d) && not (is_some (lookup d s.refcount))))
      contains-stray d =
          let (there, back) = W.lawful.contains-listed [] s.backend keys d listed in
          ground (
            arith,
            contains-orphans (keys_of s.refcount) keys d,
            contains-keys_of d s.refcount,
            there,
            back,
          )

      -- What a scan reports: no blob is missing, and the orphans are those of the listed keys.
      fsck_lem :
          (repair : Bool)
          → fsck W.platform repair s ≡ (
              if repair
              then (
                ok (record {
                  missing_blobs = [];
                  orphan_blobs = stray;
                  repaired = length stray % word_size;
                }),
                record s { backend = without W stray s.backend },
              )
              else (ok (record { missing_blobs = []; orphan_blobs = stray; repaired = 0 }), s))
      unfolding fsck collect_orphans
      fsck_lem true =
          rw
            (
              find_missing_none W (keys_of s.refcount) [] s (counted_present W p s inv),
              W.lawful.list_keys_lem,
              listed,
            )
            (let zero_more : (0 + length stray) % word_size ≡ length stray % word_size =
                omega arith in
              rw (unlink_lem W stray 0 s (omega arith), zero_more) refl)
      fsck_lem false =
          rw
            (
              find_missing_none W (keys_of s.refcount) [] s (counted_present W p s inv),
              W.lawful.list_keys_lem,
              listed,
            )
            refl

      stray_none : Tidy W s → stray ≡ []
      stray_none tidy =
          none_contained stray
            λ d. ground (arith, contains-stray d, is_chunk_digest_lem d, tidy.counted d)

      abbrev repaired_store : WStore W
      repaired_store = record s { backend = without W stray s.backend }

      same_view : (k : Text) → contains k stray ≡ false → view W repaired_store k ≡ view W s k
      same_view k h = ground (arith, view-without W stray s.backend k)

      prefixed_kept :
          (k prefix : Text)
          → (IsDigest k → starts_with k prefix ≡ false)
          → starts_with k prefix ≡ true
          → view W repaired_store k ≡ view W s k
      prefixed_kept k prefix h e =
          same_view k (ground (arith, contains-stray k, is_chunk_digest_lem k, h))

      repaired_Inv : Inv W p repaired_store
      repaired_Inv = record {
        codec = inv.codec;
        files_nodup = inv.files_nodup;
        refs_nodup = inv.refs_nodup;
        counts = inv.counts;
        positive = inv.positive;
        honest = λ d h there.
            let same : view W repaired_store d ≡ view W s d =
              same_view d (ground (arith, view-without W stray s.backend d)) in
            (Holds-move W s repaired_store d same (inv.honest d h (rw (← same) there))).0;
        present = λ d r found.
            let (h, size) = inv.present d r found in
            let same : view W repaired_store d ≡ view W s d =
              same_view d (ground (arith, contains-stray d, found)) in
            let (k, content) = Holds-move W s repaired_store d same h in (k, rw content size);
        disk_refs =
            DiskRefs-frame W.platform.json W.platform.backend W.json W.lawful s.refcount s.backend _
              (λ k e. prefixed_kept k refcount_prefix (starts_with-digest_refcount k) e)
              inv.disk_refs;
        disk_files =
            DiskFiles-frame W.platform.json W.platform.backend W.json W.lawful s.manifest s.backend
              _ (λ k e. prefixed_kept k manifest_prefix (starts_with-digest_manifest k) e)
              inv.disk_files;
      }

      repaired_counts :
          (d : Text)
          → is_chunk_digest d ≡ true
          → is_some (view W repaired_store d) ≡ is_some (lookup d s.refcount)
      repaired_counts d h = elim (Option-cases (lookup d s.refcount)) [
        | inl missing ↦ ground (arith, view-without W stray s.backend d, contains-stray d)
        | inr (r, found) ↦
            let same : view W repaired_store d ≡ view W s d =
              same_view d (ground (arith, contains-stray d, found)) in
            rw (same, (inv.present d r found).0.held, found) refl
      ]

    unlisted :
        (repair : Bool)
        → W.lawful.listed [] s.backend ≡ none
        → fsck W.platform repair s
          ≡ (ok (record { missing_blobs = []; orphan_blobs = []; repaired = 0 }), s)
    unfolding fsck collect_orphans unlink
    unlisted true none_listed =
        rw
          (
            find_missing_none W (keys_of s.refcount) [] s (counted_present W p s inv),
            W.lawful.list_keys_lem,
            none_listed,
          )
          refl
    unlisted false none_listed =
        rw
          (
            find_missing_none W (keys_of s.refcount) [] s (counted_present W p s inv),
            W.lawful.list_keys_lem,
            none_listed,
          )
          refl

    -- On a valid store in which every blob is counted, a scan reports nothing and changes nothing,
    -- repairing or not.
    pub fsck_clean :
        (repair : Bool)
        → Tidy W s
        → fsck W.platform repair s
          ≡ (ok (record { missing_blobs = []; orphan_blobs = []; repaired = 0 }), s)
    fsck_clean repair tidy = elim (Option-cases (W.lawful.listed [] s.backend)) [
      | inl none_listed ↦ unlisted repair none_listed
      | inr (keys, listed) ↦
          fsck_lem keys listed repair ∙ clean repair keys listed (stray_none keys listed tidy)
    ]
      where
        clean :
            (repair : Bool) (keys : List Text) (listed : W.lawful.listed [] s.backend ≡ some keys)
            → stray keys listed ≡ []
            → ◌≡◌ {A = Result FsckReport × WStore W}
                (if repair
                  then (
                    ok (record {
                      missing_blobs = [];
                      orphan_blobs = stray keys listed;
                      repaired = length (stray keys listed) % word_size;
                    }),
                    record s { backend = without W (stray keys listed) s.backend },
                  )
                  else (
                    ok (record {
                      missing_blobs = [];
                      orphan_blobs = stray keys listed;
                      repaired = 0;
                    }),
                    s,
                  ))
                (ok (record { missing_blobs = []; orphan_blobs = []; repaired = 0 }), s)
        clean true keys listed e = rw e refl
        clean false keys listed e = rw e refl

    -- Repairing a valid store whose backend lists its keys reports exactly the blobs that nothing
    -- counts and removes them, so that exactly the counted digests have a blob; the invariant stays.
    pub fsck_repair :
        (keys : List Text)
        → W.lawful.listed [] s.backend ≡ some keys
        → (report : FsckReport) × (s' : WStore W) × (fsck W.platform true s ≡ (ok report, s'))
          × (report.missing_blobs ≡ [])
          × (report.repaired ≡ length report.orphan_blobs % word_size)
          × ((d : Text)
              → contains d report.orphan_blobs ≡ (
                  is_chunk_digest d
                  && (is_some (view W s d) && not (is_some (lookup d s.refcount)))))
          × Inv W p s'
          × ((d : Text)
              → (is_chunk_digest d && is_some (view W s' d))
                ≡ (is_chunk_digest d && is_some (lookup d s'.refcount)))
    fsck_repair keys listed = (
      _,
      _,
      fsck_lem keys listed true,
      refl,
      refl,
      contains-stray keys listed,
      repaired_Inv keys listed,
      λ d. ground (arith, repaired_counts keys listed d),
    )
