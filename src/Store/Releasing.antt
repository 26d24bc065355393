-- ===== src/Store/Releasing.antt =====
-- `chunk_size` and `release_digests` of core/src/store/mod.rs: a reference is given back, and the
-- last one takes the blob with it.
use chunkstore.Base.{
  ℕ, ◌+◌, ◌-◌, ◌<◌, ◌≡◌, ◌≢◌, ◌∙◌, sym, ap, true, false, none, some, [], ◌∷◌, arith, length,
  if◌then◌else◌, is_some, Bool-cases, inl, inr, ◌==◌, ltb,
}
use chunkstore.Base.Text.{Text, text_eq, Text-discrete}
use chunkstore.Base.Word.{word_size}
use chunkstore.Base.Map.{
  lookup, insert, remove, NodupKeys, lookup-insert, lookup-remove, insert-NodupKeys,
  remove-NodupKeys,
}
use chunkstore.Error.{ok}
use chunkstore.RefCount.{RefCount, ChunkRef, decrement, size_of}
use chunkstore.RefCount.Laws.{count_of, decrement_lem}
use chunkstore.Stats.{Stats, remove_reference, remove_unique_chunk}
use chunkstore.Persistence.Keys.{IsDigest, starts_with-digest_refcount}
use chunkstore.Persistence.Refs.{save_refcount_lem, remove_refcount_lem}
use chunkstore.Store.Chunks.{chunk_size, release_digest}
use chunkstore.Store.World.{World}
use chunkstore.Store.Frames.{
  BState, seen, Disk, Files, KeepsBut, Disk-KeepsBut, Files-KeepsBut, Files-outside,
}
use chunkstore.Store.Reading.{decoded_in}
use chunkstore.Store.Invariant.{WStore, Holds, Inv, Pending, occurs, named, Holds-move}

module _ (W : World) where
  module _ (p : Pending) (s : WStore W) (inv : Inv W p s) (d : Text) (r : ChunkRef)
      (found : lookup d s.refcount ≡ some r) where
    valid : IsDigest d
    valid = inv.disk_refs.valid d r found

    -- The size of a counted chunk is the one on record; where that is 0 the blob has the answer.
    chunk_size_lem : chunk_size W.platform d s ≡ (ok r.size, s)
    unfolding chunk_size size_of
    chunk_size_lem = elim (Bool-cases (ltb 0 r.size)) [
      | inl known ↦ rw (found, known)
      | inr unknown ↦
          let (h, size) = inv.present d r found in
          rw (found, unknown, W.lawful.get_lem, h.held, decoded_in W s h.content inv.codec, size)
    ]

    abbrev pub left : ℕ
    left = r.count - 1

    abbrev pub counts_left : RefCount
    counts_left =
        if left == 0
        then remove d s.refcount
        else insert d (record { count = left; size = r.size }) s.refcount

    abbrev pub stats_left : Stats
    stats_left =
        remove_reference r.size (if left == 0 then remove_unique_chunk r.size s.stats else s.stats)

    abbrev pub released : BState W → WStore W
    released b' = record s { backend = b'; refcount = counts_left; stats = stats_left }

    abbrev pub kept_ref : ChunkRef
    kept_ref = record { count = left; size = r.size }

    -- What a lookup finds among the counts that are left.
    pub lookup-counts_left :
        (e : Text)
        → lookup e counts_left ≡ (
            if text_eq e d
            then (if left == 0 then none else some kept_ref)
            else lookup e s.refcount)
    lookup-counts_left e =
        ground (arith, lookup-insert e d kept_ref s.refcount, lookup-remove e d s.refcount)

    decremented : decrement d s.refcount ≡ (ok left, counts_left)
    decremented =
        let (pos, word) = inv.positive d r found in decrement_lem d r s.refcount found pos word

    -- What the backend holds afterwards: the blob goes with the last reference.
    record ReleasedBlob (b' : BState W) : Type 0 where
      own : seen W b' d ≡ (if left == 0 then none else seen W s.backend d)
      others : (k : Text) → IsDigest k → k ≢ d → seen W b' k ≡ seen W s.backend k
      refs : Disk W b' counts_left
      files : Files W b' s.manifest

    Run : Type 0
    Run = (b' : BState W) × (release_digest W.platform d s ≡ (ok tt, released b')) × ReleasedBlob b'

    drop_run : (left == 0) ≡ true → Run
    unfolding Run release_digest
    drop_run last =
        let b₁ = W.lawful.deleted d s.backend in
        let keeps : KeepsBut W d s.backend b₁ =
          λ k ne. W.lawful.view-deleted d s.backend k ∙ ground arith in
        let (b₂, removed, refs, outside) =
          remove_refcount_lem W.platform.json W.platform.backend W.json W.lawful s.refcount d valid
            b₁ (Disk-KeepsBut W d s.backend b₁ s.refcount valid keeps inv.disk_refs) in
        (
          b₂,
          rw (chunk_size_lem, decremented, last, W.lawful.delete_lem, removed),
          record {
            own =
                outside d (starts_with-digest_refcount d valid)
                ∙ W.lawful.view-deleted d s.backend d
                ∙ ground (arith, last);
            others = λ k h ne. outside k (starts_with-digest_refcount k h) ∙ keeps k ne;
            refs = rw last refs;
            files =
                Files-outside W b₁ b₂ s.manifest outside
                  (Files-KeepsBut W d s.backend b₁ s.manifest valid keeps inv.disk_files);
          },
        )

    save_run : (left == 0) ≡ false → Run
    unfolding Run release_digest
    save_run more =
        let (b₁, saved, refs, outside) =
          save_refcount_lem W.platform.json W.platform.backend W.json W.lawful s.refcount d
            (record { count = left; size = r.size }) valid s.backend inv.disk_refs in
        (
          b₁,
          rw (chunk_size_lem, decremented, more, saved),
          record {
            own = outside d (starts_with-digest_refcount d valid) ∙ rw more;
            others = λ k h ne. outside k (starts_with-digest_refcount k h);
            refs = rw more refs;
            files = Files-outside W s.backend b₁ s.manifest outside inv.disk_files;
          },
        )

    release_run : Run
    release_run = elim (Bool-cases (left == 0)) [
      | inl last ↦ drop_run last
      | inr more ↦ save_run more
    ]

    module _ (b' : BState W) (blob : ReleasedBlob b') (q : Pending)
        (given : (e : Text) → p e ≡ occurs e (d ∷ []) + q e) where
      released_counts :
          (e : Text) → count_of (lookup e counts_left) ≡ q e + named e s.manifest.files
      released_counts e =
          rw lookup-counts_left
            (ground (arith, found, inv.counts e, given e, inv.positive d r found))

      released_positive :
          (e : Text) (x : ChunkRef)
          → lookup e counts_left ≡ some x
          → (0 < x.count) × (x.count < word_size)
      released_positive e x there =
          ground (arith, lookup-counts_left e, inv.positive e x, inv.positive d r found)

      own_Holds :
          (seen W b' d ≡ seen W s.backend d)
          → (h : Holds W (released b') d) × (r.size ≡ length h.content)
      own_Holds same =
          let (h, size) = inv.present d r found in
          let (k, content) = Holds-move W s (released b') d same h in
          (k, size ∙ ap length (sym content))

      released_honest :
          (e : Text) → IsDigest e → is_some (seen W b' e) ≡ true → Holds W (released b') e
      released_honest e h there = elim (Text-discrete e d) [
        | yes same ↦
            let there' : is_some (seen W b' d) ≡ true = rw same at there in
            rw same ((own_Holds (ground (arith, blob.own))).0)
        | no differ ↦
            let kept = blob.others e h differ in
            (Holds-move W s (released b') e kept (inv.honest e h (ap is_some (sym kept) ∙ there))).0
      ]

      released_present :
          (e : Text) (x : ChunkRef)
          → lookup e counts_left ≡ some x
          → (h : Holds W (released b') e) × (x.size ≡ length h.content)
      released_present e x there = elim (Text-discrete e d) [
        | yes same ↦
            let own : x ≡ kept_ref = ground (arith, lookup-counts_left e) in
            let more : (left == 0) ≡ false = ground (arith, lookup-counts_left e) in
            rw (same, own) (own_Holds (blob.own ∙ rw more))
        | no differ ↦
            let old : lookup e s.refcount ≡ some x = ground (arith, lookup-counts_left e) in
            let (h, size) = inv.present e x old in
            let (k, content) =
              Holds-move W s (released b') e (blob.others e (inv.disk_refs.valid e x old) differ)
                h in
            (k, size ∙ ap length (sym content))
      ]

      counts_left_nodup : NodupKeys counts_left
      counts_left_nodup = elim (Bool-cases (left == 0)) [
        | inl last ↦ rw last (remove-NodupKeys d s.refcount inv.refs_nodup)
        | inr more ↦ rw more (insert-NodupKeys d kept_ref s.refcount inv.refs_nodup)
      ]

      released-Inv : Inv W q (released b')
      released-Inv = record {
        codec = inv.codec;
        files_nodup = inv.files_nodup;
        refs_nodup = counts_left_nodup;
        counts = released_counts;
        positive = released_positive;
        honest = released_honest;
        present = released_present;
        disk_refs = blob.refs;
        disk_files = blob.files;
      }

    -- One pending reference is given back.
    pub release_digest_lem :
        (q : Pending)
        → ((e : Text) → p e ≡ occurs e (d ∷ []) + q e)
        → (b' : BState W) × (release_digest W.platform d s ≡ (ok tt, released b'))
          × Inv W q (released b')
          × (seen W b' d ≡ (if left == 0 then none else seen W s.backend d))
          × ((k : Text) → IsDigest k → k ≢ d → seen W b' k ≡ seen W s.backend k)
    unfolding Run
    release_digest_lem q given =
        let (b', run, blob) = release_run in
        (b', run, released-Inv b' blob q given, blob.own, blob.others)
