-- ===== src/Store/Names.antt =====
-- Names that a file cannot have: what `IngestSession::commit` of core/src/store/mod.rs and
-- `save_manifest` of core/src/store/persistence.rs do with them.
use chunkstore.Base.{
  ℕ, ◌≡◌, ◌∙◌, refl, some, List, [], ◌++◌, arith, length, All, map, inl, inr, ◌⊎◌,
}
use chunkstore.Base.Text.{Text, Bytes, codes}
use chunkstore.Error.{ChunkStoreError, err, invalid_argument, backend_error}
use chunkstore.Manifest.{insert_file}
use chunkstore.Json.{Json, IsJson, ManifestRecord}
use chunkstore.Backend.{ChunkBackend}
use chunkstore.Backend.Lawful.{IsLawful}
use chunkstore.Persistence.{
  save_manifest, load_manifests, read_string_list, add_to_index, manifest_index_key,
}
use chunkstore.Persistence.Keys.{IsDigest, index_name, manifest_index_key_lem}
use chunkstore.Persistence.Files.{validate_digests_lem}
use chunkstore.Store.Files.{ingest_chunks, commit, new_session, peek_digests}
use chunkstore.Store.World.{World}
use chunkstore.Store.Invariant.{WStore, Inv, Inv-pending, nothing, occurs, digest}
use chunkstore.Store.Session.{Room, accept-All}

module _ (W : World) where
  -- On a valid store, with room in the counts, ingesting known chunks under the empty name is refused
  -- after they have been stored and counted: the manifest is as before, and each chunk keeps one
  -- reference for each time that it came, which no file explains.
  pub ingest_chunks_nameless :
      (s : WStore W) (cs : List Bytes)
      → Inv W nothing s
      → All W.Known cs
      → Room W s (length cs)
      → (s' : WStore W) × (ingest_chunks W.platform [] cs s
          ≡ (err (invalid_argument (codes "file_id cannot be empty")), s'))
        × (s'.manifest ≡ s.manifest)
        × Inv W (λ d. occurs d (map (digest W) cs)) s'
  unfolding ingest_chunks commit peek_digests insert_file
  ingest_chunks_nameless s cs inv known room =
      let a = accept-All W cs nothing s new_session inv known room in
      (a.final, rw a.run refl, a.manifest, Inv-pending W _ _ a.final (λ d. omega arith) a.inv)

module _ (J : Json) (B : ChunkBackend) (json : IsJson J) (law : IsLawful B) where
  -- A manifest under an index's key cannot be read as the index.
  unreadable :
      (key : Text) (m : ManifestRecord) (b : B.State)
      → law.view b key ≡ some (json.manifest_bytes m)
      → (e : ChunkStoreError) × (read_string_list J B key b ≡ (err e, b))
  unfolding read_string_list
  unreadable key m b held = from (J.list_from_slice (json.manifest_bytes m)) refl
    where
      from :
          (o : Text ⊎ List Text)
          → J.list_from_slice (json.manifest_bytes m) ≡ o
          → (e : ChunkStoreError) × (read_string_list J B key b ≡ (err e, b))
      from (inl message) same = (
        backend_error (codes "invalid index JSON at " ++ (key ++ (codes ": " ++ message))),
        rw (law.get_lem, held, same) refl,
      )
      from (inr l) same = absurd (json.manifest_no_list m l same)

  -- Saving a manifest of valid digests for a file named like the index fails, and leaves a backend
  -- on which the next load of the manifests fails too, since the manifest has the index's key.
  pub save_manifest-index_name :
      (ds : List Text) (n : ℕ) (b : B.State)
      → All IsDigest ds
      → (e : ChunkStoreError) × (b' : B.State) × (save_manifest J B index_name ds n b ≡ (err e, b'))
        × (load_manifests J B b' ≡ (err e, b'))
  unfolding save_manifest load_manifests add_to_index
  save_manifest-index_name ds n b digests =
      let m : ManifestRecord = record { digests = ds; file_bytes = n } in
      let b' = law.written manifest_index_key (json.manifest_bytes m) b in
      let held : law.view b' manifest_index_key ≡ some (json.manifest_bytes m) =
        law.view-written manifest_index_key (json.manifest_bytes m) b manifest_index_key
        ∙ ground arith in
      let (e, broken) = unreadable manifest_index_key m b' held in
      (
        e,
        b',
        rw
            (
              validate_digests_lem ds digests,
              json.manifest_written,
              ← manifest_index_key_lem,
              law.put_lem,
              broken,
            )
            refl,
        rw broken refl,
      )
