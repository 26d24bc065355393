-- ===== src/Store/Contract.antt =====
-- What a store promises: a map from names to contents. `ingest_chunks`, `delete` and `read` of
-- core/src/store/mod.rs against it.
use chunkstore.Base.{
  ◌≡◌, ◌∙◌, refl, Option, none, some, List, ◌++◌, arith, length, if◌then◌else◌, concat, All, map,
  Bool-cases, inl, inr,
}
use chunkstore.Base.Text.{Text, Bytes, codes, text_eq}
use chunkstore.Base.Map.{Map, lookup, insert, remove, lookup-insert, lookup-remove}
use chunkstore.Error.{Result, ok, err, not_found}
use chunkstore.Manifest
use chunkstore.Manifest.{Manifest}
use chunkstore.Persistence.Files.{IsFileId}
use chunkstore.Store.Files.{ingest_chunks, delete, read}
use chunkstore.Store.World.{World}
use chunkstore.Store.Invariant.{WStore, Inv, nothing, digest}
use chunkstore.Store.Session.{Room}
use chunkstore.Store.Reading.{read_lem, read_missing, Chunks-known, read_same, read_keeps}
use chunkstore.Store.Commit.{ingest_chunks_lem, delete_lem}

-- What `read` answers for a file of the map.
abbrev pub answer : Text → Option Bytes → Result Bytes
answer f none = err (not_found (codes "file " ++ f))
answer f (some content) = ok content

module _ (W : World) where
  -- Reading a file of the store answers as the map says, and changes nothing.
  abbrev pub Refines : WStore W → Map Bytes → Type 0
  Refines s contents = (f : Text) → read W.platform f s ≡ (answer f (lookup f contents), s)

  pub read_ingested :
      (s : WStore W) (f : Text) (cs : List Bytes)
      → Inv W nothing s
      → lookup f s.manifest.files ≡ some (map (digest W) cs)
      → All W.Known cs
      → read W.platform f s ≡ (ok (concat cs), s)
  read_ingested s f cs inv found known =
      let (es, h, _, r) = read_lem W nothing s inv f (map (digest W) cs) found in
      rw r (rw (Chunks-known W s cs es known h) refl)

  -- A file that the change leaves alone reads as before.
  read_other :
      (s t : WStore W) (f : Text) (contents : Map Bytes)
      → Inv W nothing s
      → Inv W nothing t
      → lookup f t.manifest.files ≡ lookup f s.manifest.files
      → Refines s contents
      → read W.platform f t ≡ (answer f (lookup f contents), t)
  read_other s t f contents i j same r =
      let value = read_same W nothing nothing s t f i j same in
      let state = read_keeps W nothing t f j in cc (value, state, r f)

  pub insertion-Refines :
      (s s' : WStore W) (f : Text) (cs : List Bytes) (contents : Map Bytes)
      → Inv W nothing s
      → Inv W nothing s'
      → s'.manifest.files ≡ insert f (map (digest W) cs) s.manifest.files
      → All W.Known cs
      → Refines s contents
      → Refines s' (insert f (concat cs) contents)
  insertion-Refines s s' f cs contents i j files known r g =
      let there : (h : Text)
          → lookup h s'.manifest.files
            ≡ (if text_eq h f then some (map (digest W) cs) else lookup h s.manifest.files) =
        λ h. rw files (lookup-insert h f (map (digest W) cs) s.manifest.files) in
      elim (Bool-cases (text_eq g f)) [
        | inl same ↦
            let e : g ≡ f = ground arith in
            rw (lookup-insert, same) (rw e (read_ingested s' f cs j (there f ∙ ground arith) known))
        | inr other ↦
            rw (lookup-insert, other) (read_other s s' g contents i j (there g ∙ rw other) r)
      ]

  pub removal-Refines :
      (s s' : WStore W) (f : Text) (contents : Map Bytes)
      → Inv W nothing s
      → Inv W nothing s'
      → s'.manifest.files ≡ remove f s.manifest.files
      → Refines s contents
      → Refines s' (remove f contents)
  removal-Refines s s' f contents i j files r g =
      let there : lookup g s'.manifest.files
          ≡ (if text_eq g f then none else lookup g s.manifest.files) =
        rw files (lookup-remove g f s.manifest.files) in
      elim (Bool-cases (text_eq g f)) [
        | inl same ↦ rw (lookup-remove, same) (read_missing W g s' (there ∙ rw same))
        | inr other ↦
            rw (lookup-remove, other) (read_other s s' g contents i j (there ∙ rw other) r)
      ]

  -- On a valid store that refines a map of contents, ingesting chunks under a name, whatever stood
  -- there, returns their digests and refines the insertion of their bytes; the invariant stays. The
  -- name is neither empty nor that of the index, no two of the chunks have one digest, and no
  -- reference count is full.
  pub ingest_chunks-Refines :
      (s : WStore W) (f : Text) (cs : List Bytes) (contents : Map Bytes)
      → Inv W nothing s
      → Refines s contents
      → IsFileId f
      → All W.Known cs
      → Room W s (length cs)
      → (s' : WStore W) × (ingest_chunks W.platform f cs s ≡ (ok (map (digest W) cs), s'))
        × Inv W nothing s'
        × Refines s' (insert f (concat cs) contents)
  ingest_chunks-Refines s f cs contents inv r id known room =
      let (s', run, inv', files, tidy) = ingest_chunks_lem W s f cs inv id known room in
      (s', run, inv', insertion-Refines s s' f cs contents inv inv' files known r)

  -- On a valid store that refines a map of contents, deleting a file that is there succeeds and
  -- refines the removal of its name; the invariant stays.
  pub delete-Refines :
      (s : WStore W) (f : Text) (ds : List Text) (contents : Map Bytes)
      → Inv W nothing s
      → Refines s contents
      → lookup f s.manifest.files ≡ some ds
      → (s' : WStore W) × (delete W.platform f s ≡ (ok tt, s'))
        × Inv W nothing s'
        × Refines s' (remove f contents)
  delete-Refines s f ds contents inv r found =
      let (s', run, inv', files, tidy) = delete_lem W s f ds inv found in
      (s', run, inv', removal-Refines s s' f contents inv inv' files r)

  -- Deleting a file that is not there fails with `not_found`, and touches neither the backend, nor
  -- the counts, nor the statistics, nor the lookup of any file.
  pub delete_missing :
      (s : WStore W) (f : Text)
      → lookup f s.manifest.files ≡ none
      → let s' = (delete W.platform f s).1 in
        ((delete W.platform f s).0 ≡ err (not_found (codes "file " ++ f)))
        × (s'.backend ≡ s.backend)
        × (s'.refcount ≡ s.refcount)
        × (s'.stats ≡ s.stats)
        × ((g : Text) → lookup g s'.manifest.files ≡ lookup g s.manifest.files)
  unfolding delete Manifest.remove_file
  delete_missing s f missing = (
    rw missing,
    rw missing,
    rw missing,
    rw missing,
    λ g. rw missing (ground (arith, missing, lookup-remove g f s.manifest.files)),
  )
