-- ===== src/Store/Storing.antt =====
-- `store_chunk` of core/src/store/mod.rs keeps the invariant.
use chunkstore.Base.{
  ◌+◌, ◌<◌, ◌≡◌, ◌≢◌, ◌∙◌, sym, refl, ap, true, Option, none, some, [], ◌∷◌, arith, length,
  if◌then◌else◌, is_some,
}
use chunkstore.Base.Text.{Text, Bytes, Text-discrete}
use chunkstore.Base.Word.{word_size, add_lem}
use chunkstore.Base.Map.{lookup, insert, lookup-insert, insert-NodupKeys}
use chunkstore.Error.{ok}
use chunkstore.RefCount.{ChunkRef, size_of}
use chunkstore.RefCount.Laws.{count_of, SizeAgrees, one_more, increment_lem, lookup-insert_self}
use chunkstore.Stats.{Stats, add_reference, add_unique_chunk}
use chunkstore.Persistence.Keys.{IsDigest, starts_with-digest_refcount, refcount_prefix}
use chunkstore.Persistence.Disk.{KeepsOutside}
use chunkstore.Persistence.Refs.{save_refcount_lem}
use chunkstore.Store.Chunks.{store_chunk, count_reference}
use chunkstore.Store.World.{World}
use chunkstore.Store.Blobs.{put_blob_lem}
use chunkstore.Store.Frames.{
  BState, seen, Disk, Files, Disk-KeepsBut, Files-KeepsBut, Files-outside,
}
use chunkstore.Store.Reading.{encoded_in}
use chunkstore.Store.Invariant.{
  WStore, Holds, Inv, Pending, occurs, named, view, digest, Holds-move, digest-IsDigest,
}

module _ (W : World) where
  module _ (p : Pending) (s : WStore W) (inv : Inv W p s) (c : Bytes) (known : W.Known c) where
    abbrev pub d : Text
    d = digest W c

    pub SizeAgrees-at : (o : Option ChunkRef) → lookup d s.refcount ≡ o → SizeAgrees (length c) o
    SizeAgrees-at none e = tt
    SizeAgrees-at (some r) e =
        let (h, size) = inv.present d r e in
        size ∙ ap length (W.no_clash h.content c h.known known h.digest_lem)

    abbrev pub entry : ChunkRef
    entry = one_more (length c) (lookup d s.refcount)

    -- The store after the reference has been counted and saved.
    pub count_reference_lem :
        (b : BState W)
        → Disk W b s.refcount
        → (b' : BState W) × (count_reference W.platform d (length c) (record s { backend = b })
            ≡ (ok tt, record s { backend = b'; refcount = insert d entry s.refcount }))
          × Disk W b' (insert d entry s.refcount)
          × KeepsOutside W.platform.json W.platform.backend W.json W.lawful refcount_prefix b b'
    unfolding count_reference size_of
    count_reference_lem b h =
        let (b', saved, disk, keeps) =
          save_refcount_lem W.platform.json W.platform.backend W.json W.lawful s.refcount d entry
            (digest-IsDigest W c) b h in
        (
          b',
          rw
              (
                increment_lem d (length c) s.refcount (SizeAgrees-at _ refl),
                lookup-insert_self d entry s.refcount,
              )
              (rw saved),
          disk,
          keeps,
        )

    -- The store after `store_chunk`: the counts and the statistics move, the manifest stays.
    abbrev pub stored_stats : Stats
    stored_stats =
        (if is_some (view W s d) then add_reference (length c) else add_unique_chunk (length c))
          s.stats

    abbrev pub stored : BState W → WStore W
    stored b' = record s {
      backend = b';
      refcount = insert d entry s.refcount;
      stats = stored_stats;
    }

    -- What the backend holds afterwards.
    record StoredBlob (b' : BState W) : Type 0 where
      own : seen W b' d ≡ some (W.coding.blob c)
      others : (k : Text) → IsDigest k → k ≢ d → seen W b' k ≡ seen W s.backend k
      refs : Disk W b' (insert d entry s.refcount)
      files : Files W b' s.manifest

    store_chunk_run :
        (b' : BState W) × (store_chunk W.platform d c s ≡ (ok (is_some (view W s d)), stored b'))
        × StoredBlob b'
    unfolding store_chunk
    store_chunk_run =
        let (b₁, put, own, keeps) = put_blob_lem W s inv.honest c known in
        let (b₂, counted, refs, outside) =
          count_reference_lem b₁
            (Disk-KeepsBut W d s.backend b₁ s.refcount (digest-IsDigest W c) keeps inv.disk_refs) in
        (
          b₂,
          rw (encoded_in W s c inv.codec, put, counted),
          record {
            own = outside d (starts_with-digest_refcount d (digest-IsDigest W c)) ∙ own;
            others = λ k h ne. outside k (starts_with-digest_refcount k h) ∙ keeps k ne;
            refs = refs;
            files = Files-outside W b₁ b₂ s.manifest outside (
                Files-KeepsBut W d s.backend b₁ s.manifest (digest-IsDigest W c) keeps
                  inv.disk_files);
          },
        )

    module _ (b' : BState W) (blob : StoredBlob b')
        (room : count_of (lookup d s.refcount) + 1 < word_size) where
      own_Holds : Holds W (stored b') d
      own_Holds = record { content = c; known = known; digest_lem = refl; held = blob.own }

      stored_counts :
          (e : Text)
          → count_of (lookup e (insert d entry s.refcount))
            ≡ occurs e (d ∷ []) + p e + named e s.manifest.files
      stored_counts e =
          let more : entry.count ≡ count_of (lookup d s.refcount) + 1 = add_lem _ 1 room in
          ground (arith, lookup-insert e d entry s.refcount, inv.counts e, more)

      stored_positive :
          (e : Text) (r : ChunkRef)
          → lookup e (insert d entry s.refcount) ≡ some r
          → (0 < r.count) × (r.count < word_size)
      stored_positive e r found =
          let more : entry.count ≡ count_of (lookup d s.refcount) + 1 = add_lem _ 1 room in
          ground (arith, lookup-insert e d entry s.refcount, inv.positive e r, more)

      stored_honest : (e : Text) → IsDigest e → is_some (seen W b' e) ≡ true → Holds W (stored b') e
      stored_honest e h there = elim (Text-discrete e d) [
        | yes same ↦ rw same own_Holds
        | no differ ↦
            let kept = blob.others e h differ in
            (Holds-move W s (stored b') e kept (inv.honest e h (ap is_some (sym kept) ∙ there))).0
      ]

      stored_present :
          (e : Text) (r : ChunkRef)
          → lookup e (insert d entry s.refcount) ≡ some r
          → (h : Holds W (stored b') e) × (r.size ≡ length h.content)
      unfolding own_Holds
      stored_present e r found = elim (Text-discrete e d) [
        | yes same ↦
            let own : r ≡ entry = ground (arith, lookup-insert e d entry s.refcount) in
            rw (same, own) (own_Holds, refl)
        | no differ ↦
            let old : lookup e s.refcount ≡ some r =
              ground (arith, lookup-insert e d entry s.refcount) in
            let (h, size) = inv.present e r old in
            let (k, content) =
              Holds-move W s (stored b') e (blob.others e (inv.disk_refs.valid e r old) differ) h in
            (k, size ∙ ap length (sym content))
      ]

      stored-Inv : Inv W (λ e. occurs e (d ∷ []) + p e) (stored b')
      stored-Inv = record {
        codec = inv.codec;
        files_nodup = inv.files_nodup;
        refs_nodup = insert-NodupKeys d entry s.refcount inv.refs_nodup;
        counts = stored_counts;
        positive = stored_positive;
        honest = stored_honest;
        present = stored_present;
        disk_refs = blob.refs;
        disk_files = blob.files;
      }

    -- A chunk is stored, and counted once more, as pending.
    pub store_chunk_lem :
        (room : count_of (lookup d s.refcount) + 1 < word_size)
        → (b' : BState W) × (store_chunk W.platform d c s ≡ (ok (is_some (view W s d)), stored b'))
          × Inv W (λ e. occurs e (d ∷ []) + p e) (stored b')
          × ((k : Text) → IsDigest k → k ≢ d → seen W b' k ≡ seen W s.backend k)
    store_chunk_lem room =
        let (b', run, blob) = store_chunk_run in (b', run, stored-Inv b' blob room, blob.others)
