-- ===== src/Store/Commit.antt =====
-- `commit`, `ingest_chunks` and `delete` of core/src/store/mod.rs keep the invariant.
use chunkstore.Base.{
  ℕ, ◌+◌, ◌≤◌, ◌<◌, ◌≡◌, ◌≢◌, ◌∙◌, sym, refl, ap, Bool, true, false, Option, none, some, List, [],
  ◌∷◌, ◌++◌, arith, length, if◌then◌else◌, is_some, is_empty, Option-cases, inl, inr, map, All,
  concat,
}
use chunkstore.Base.Text.{Text, Bytes}
use chunkstore.Base.Word.{word_size}
use chunkstore.Base.Map.{
  Map, lookup, insert, remove, lookup-insert, lookup-remove, total, at, total-insert, total-remove,
  insert-NodupKeys, remove-NodupKeys,
}
use chunkstore.Error.{ok}
use chunkstore.Manifest.{Manifest, insert_file, remove_file, try_get}
use chunkstore.Persistence.Keys.{IsDigest, starts_with-digest_manifest, manifest_prefix}
use chunkstore.Persistence.Disk.{KeepsOutside}
use chunkstore.Persistence.Files.{
  IsFileId, with_file, without_file, save_manifest_lem, remove_manifest_lem,
}
use chunkstore.Store.Files.{
  IngestSession, new_session, commit, release_old, peek_digests, ingest_chunks, delete,
}
use chunkstore.Store.World.{World}
use chunkstore.Store.Frames.{BState, seen, Files, Disk-outside}
use chunkstore.Store.Tidy.{Tidy}
use chunkstore.Store.Session.{release_all, accept-All, session_after, session_after-digests, Room}
use chunkstore.Store.Invariant.{
  WStore, Inv, Inv-pending, Pending, nothing, occurs, named, digest, digest-IsDigest, Holds-move,
}

-- `file_id.is_empty()`
not_empty : (f : Text) → f ≢ [] → is_empty f ≡ false
not_empty [] h = absurd (h refl)
not_empty (c ∷ f) h = refl

module _ (W : World) where
  -- A change of manifests alone: the backend may differ at their keys.
  module _ (s : WStore W) (b' : BState W) (m' : Manifest)
      (keeps : KeepsOutside W.platform.json W.platform.backend W.json W.lawful manifest_prefix
        s.backend b') where
    abbrev moved : WStore W
    moved = record s { backend = b'; manifest = m' }

    same_blobs : (d : Text) → IsDigest d → seen W b' d ≡ seen W s.backend d
    same_blobs d h = keeps d (starts_with-digest_manifest d h)

    moved-Inv :
        (p q : Pending)
        → Inv W p s
        → ((d : Text) → p d + named d s.manifest.files ≡ q d + named d m'.files)
        → chunkstore.Base.Map.NodupKeys m'.files
        → Files W b' m'
        → Inv W q moved
    moved-Inv p q inv balance nodup files = record {
      codec = inv.codec;
      files_nodup = nodup;
      refs_nodup = inv.refs_nodup;
      counts = λ d. inv.counts d ∙ balance d;
      positive = inv.positive;
      honest = λ d h there.
          (Holds-move W s moved d (same_blobs d h)
            (inv.honest d h (rw (← same_blobs d h) there))).0;
      present = λ d r found.
          let (h, size) = inv.present d r found in
          let (k, content) =
            Holds-move W s moved d (same_blobs d (inv.disk_refs.valid d r found)) h in
          (k, rw content size);
      disk_refs = Disk-outside W s.backend b' s.refcount keeps inv.disk_refs;
      disk_files = files;
    }

    moved-Tidy : Tidy W s → Tidy W moved
    moved-Tidy t = record {
      counted = λ d h there. t.counted d h (rw (← same_blobs d h) there);
      stored_bytes = t.stored_bytes;
      total_bytes = t.total_bytes;
      fits = t.fits;
    }

  -- What a file's manifest contributed before.
  abbrev old_count : Text → WStore W → Pending
  old_count f s d = at (occurs d) (lookup f s.manifest.files)

  release_old_lem :
      (old : Option (List Text)) (p : Pending) (s : WStore W)
      → Inv W (λ d. at (occurs d) old + p d) s
      → (s' : WStore W) × (release_old W.platform old s ≡ (ok tt, s'))
        × Inv W p s'
        × (s'.manifest ≡ s.manifest)
        × (Tidy W s → Tidy W s')
  unfolding release_old
  release_old_lem none p s inv = (s, refl, Inv-pending W _ p s (λ d. omega arith) inv, refl, λ t. t)
  release_old_lem (some old) p s inv =
      let r = release_all W old p s inv in (r.final, r.run, r.inv, r.manifest, r.tidy)

  commit_lem :
      (p : Pending) (s : WStore W) (session : IngestSession) (f : Text)
      → Inv W (λ d. occurs d session.digests + p d) s
      → IsFileId f
      → All IsDigest session.digests
      → (s' : WStore W) × (commit W.platform session f s ≡ (ok session.digests, s'))
        × Inv W p s'
        × (s'.manifest ≡ with_file f session.digests session.file_bytes s.manifest)
        × (Tidy W s → Tidy W s')
  unfolding commit peek_digests insert_file try_get
  commit_lem p s session f inv id digests =
      let (b₁, saved, files, keeps) =
        save_manifest_lem W.platform.json W.platform.backend W.json W.lawful s.manifest f
          session.digests session.file_bytes id digests s.backend inv.disk_files in
      let m' = with_file f session.digests session.file_bytes s.manifest in
      let inv₁ =
        moved-Inv s b₁ m' keeps _ (λ d. old_count f s d + p d) inv
          (λ d. omega (
            arith,
            total-insert (λ _ es. occurs d es) f session.digests s.manifest.files inv.files_nodup,
          ))
          (insert-NodupKeys f session.digests s.manifest.files inv.files_nodup) files in
      let (s', released, inv', manifest, tidy) =
        release_old_lem (lookup f s.manifest.files) p (moved s b₁ m' keeps) inv₁ in
      (
        s',
        rw (not_empty f id.0, saved, released),
        inv',
        manifest,
        λ t. tidy (moved-Tidy s b₁ m' keeps t),
      )

  digests_valid : (cs : List Bytes) → All IsDigest (map (digest W) cs)
  digests_valid [] = tt
  digests_valid (c ∷ cs) = (digest-IsDigest W c, digests_valid cs)

  -- Ingesting chunks under a name leaves a valid store that differs in that file alone.
  pub ingest_chunks_lem :
      (s : WStore W) (f : Text) (cs : List Bytes)
      → Inv W nothing s
      → IsFileId f
      → All W.Known cs
      → Room W s (length cs)
      → (s' : WStore W) × (ingest_chunks W.platform f cs s ≡ (ok (map (digest W) cs), s'))
        × Inv W nothing s'
        × (s'.manifest.files ≡ insert f (map (digest W) cs) s.manifest.files)
        × (Tidy W s → s.stats.total_bytes + length (concat cs) < word_size → Tidy W s')
  unfolding ingest_chunks
  ingest_chunks_lem s f cs inv id known room =
      let a = accept-All W cs nothing s new_session inv known room in
      let same = session_after-digests W cs new_session in
      let inv₁ : Inv W (λ d. occurs d (session_after W cs new_session).digests + nothing d)
          a.final =
        rw same a.inv in
      let (s', run, inv', manifest, tidy) =
        commit_lem nothing a.final (session_after W cs new_session) f inv₁ id
          (rw same (digests_valid cs)) in
      (
        s',
        rw a.run (run ∙ rw same),
        inv',
        ap (λ (m : Manifest). m.files) manifest ∙ rw (same, a.manifest),
        λ t bytes. tidy (a.tidy t bytes),
      )

  -- Deleting a file that is there leaves a valid store without it.
  pub delete_lem :
      (s : WStore W) (f : Text) (ds : List Text)
      → Inv W nothing s
      → lookup f s.manifest.files ≡ some ds
      → (s' : WStore W) × (delete W.platform f s ≡ (ok tt, s'))
        × Inv W nothing s'
        × (s'.manifest.files ≡ remove f s.manifest.files)
        × (Tidy W s → Tidy W s')
  unfolding delete remove_file
  delete_lem s f ds inv found =
      let id = (inv.disk_files.valid f ds found).0 in
      let (b₁, removed, files, keeps) =
        remove_manifest_lem W.platform.json W.platform.backend W.json W.lawful s.manifest f id
          s.backend inv.disk_files in
      let m' = without_file f s.manifest in
      let inv₁ =
        moved-Inv s b₁ m' keeps nothing (λ d. occurs d ds + nothing d) inv
          (λ d.
            ground
              (arith, total-remove (λ _ es. occurs d es) f s.manifest.files inv.files_nodup, found))
          (remove-NodupKeys f s.manifest.files inv.files_nodup) files in
      let r = release_all W ds nothing (moved s b₁ m' keeps) inv₁ in
      (
        r.final,
        rw (found, removed, r.run),
        r.inv,
        ap (λ (m : Manifest). m.files) r.manifest,
        λ t. r.tidy (moved-Tidy s b₁ m' keeps t),
      )
