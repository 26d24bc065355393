-- ===== src/Persistence/Files.antt =====
-- Saving and removing a manifest keeps the backend a mirror of the metadata in memory.
use chunkstore.Base.{ℕ, ◌≡◌, refl, ◌≢◌, ◌∙◌, sym, true, some, List, [], ◌∷◌, arith, is_some, All}
use chunkstore.Base.Text.{Text, Text-discrete}
use chunkstore.Base.Map.{lookup, insert, remove, lookup-insert, lookup-remove}
use chunkstore.Error.{ok}
use chunkstore.Backend.{ChunkBackend}
use chunkstore.Backend.Lawful.{IsLawful, starts_with}
use chunkstore.Json.{Json, IsJson, ManifestRecord}
use chunkstore.Manifest.{Manifest}
use chunkstore.Persistence.{
  validate_digests, manifest_key, manifest_index_key, save_manifest, remove_manifest,
}
use chunkstore.Persistence.Keys.{
  IsDigest, index_name, manifest_prefix, validate_digest_lem, starts_with-manifest_key,
  manifest_index_key_lem, manifest_key_inj,
}
use chunkstore.Persistence.Disk.{
  KeepsOutside, outside_written, outside_deleted, starts_manifest_index, Indexed-Keeps,
  Indexed-same, Indexed-frame, is_some-insert, is_some-remove,
}
use chunkstore.Persistence.Index.{
  Indexed, Keeps, Keeps-written, Keeps-deleted, add_to_index_lem, remove_from_index_lem,
}

pub validate_digests_lem : (ds : List Text) → All IsDigest ds → validate_digests ds ≡ ok tt
unfolding validate_digests
validate_digests_lem [] h = refl
validate_digests_lem (d ∷ ds) h =
    rw (validate_digest_lem d h.0, validate_digests) (validate_digests_lem ds h.1)

-- A name under which a file can be kept: not empty, and not that of the index.
abbrev pub IsFileId : Text → Type 0
IsFileId f = (f ≢ []) × (f ≢ index_name)

abbrev record_of : List Text → ℕ → ManifestRecord
record_of ds n = record { digests = ds; file_bytes = n }

abbrev pub with_file : Text → List Text → ℕ → Manifest → Manifest
with_file f ds n m = record { files = insert f ds m.files; file_bytes = insert f n m.file_bytes }

abbrev pub without_file : Text → Manifest → Manifest
without_file f m = record { files = remove f m.files; file_bytes = remove f m.file_bytes }

module _ (J : Json) (B : ChunkBackend) (json : IsJson J) (law : IsLawful B) where
  -- The backend holds a record for each file, and the index lists them.
  pub record DiskFiles (b : B.State) (m : Manifest) : Type 0 where
    pub index : Indexed J B json law b manifest_index_key (λ f. is_some (lookup f m.files))
    pub valid :
        (f : Text) (ds : List Text) → lookup f m.files ≡ some ds → IsFileId f × All IsDigest ds
    pub records :
        (f : Text) (ds : List Text)
        → lookup f m.files ≡ some ds
        → (n : ℕ) × (lookup f m.file_bytes ≡ some n)
          × (law.view b (manifest_key f) ≡ some (json.manifest_bytes (record_of ds n)))

  pub DiskFiles-frame :
      (m : Manifest) (b b' : B.State)
      → ((k : Text) → starts_with k manifest_prefix ≡ true → law.view b' k ≡ law.view b k)
      → DiskFiles b m
      → DiskFiles b' m
  DiskFiles-frame m b b' same h = record {
    index =
        Indexed-frame J B json law manifest_index_key _ b b'
          (same manifest_index_key starts_manifest_index) h.index;
    valid = h.valid;
    records = λ f ds found.
        let (n, bytes, stored) = h.records f ds found in
        (n, bytes, same (manifest_key f) (starts_with-manifest_key f) ∙ stored);
  }

  manifest_key-ne-index : (f : Text) → f ≢ index_name → manifest_key f ≢ manifest_index_key
  manifest_key-ne-index f ne e = ne (manifest_key_inj f index_name (e ∙ manifest_index_key_lem))

  module _ (m : Manifest) (f : Text) (ds : List Text) (n : ℕ) (id : IsFileId f)
      (digests : All IsDigest ds) where
    saved_valid :
        (b : B.State)
        → DiskFiles b m
        → (g : Text) (es : List Text) → lookup g (insert f ds m.files) ≡ some es
        → IsFileId g × All IsDigest es
    saved_valid b h g es found = elim (Text-discrete g f) [
      | yes same ↦
          let es_ds : es ≡ ds = ground (arith, lookup-insert g f ds m.files) in
          (rw same id, rw es_ds digests)
      | no differ ↦ h.valid g es (ground (arith, lookup-insert g f ds m.files))
    ]

    saved_records :
        (b b₁ : B.State)
        → DiskFiles b m
        → Keeps J B json law manifest_index_key
            (law.written (manifest_key f) (json.manifest_bytes (record_of ds n)) b)
            b₁
        → (g : Text) (es : List Text) → lookup g (insert f ds m.files) ≡ some es
        → (k : ℕ) × (lookup g (insert f n m.file_bytes) ≡ some k)
          × (law.view b₁ (manifest_key g) ≡ some (json.manifest_bytes (record_of es k)))
    saved_records b b₁ h keeps g es found =
        let kept =
          keeps (manifest_key g) (manifest_key-ne-index g ((saved_valid b h g es found).0.1)) in
        let now =
          law.view-written (manifest_key f) (json.manifest_bytes (record_of ds n)) b
            (manifest_key g) in
        elim (Text-discrete g f) [
          | yes same ↦ (
            n,
            ground (arith, lookup-insert g f n m.file_bytes),
            ground (arith, kept, now, lookup-insert g f ds m.files),
          )
          | no differ ↦
              let (k, bytes, stored) =
                h.records g es (ground (arith, lookup-insert g f ds m.files)) in
              (
                k,
                ground (arith, lookup-insert g f n m.file_bytes),
                ground (arith, kept, now, manifest_key_inj g f),
              )
        ]

    pub save_manifest_lem :
        (b : B.State)
        → DiskFiles b m
        → (b' : B.State) × (save_manifest J B f ds n b ≡ (ok tt, b'))
          × DiskFiles b' (with_file f ds n m)
          × KeepsOutside J B json law manifest_prefix b b'
    unfolding save_manifest
    save_manifest_lem b h =
        let v = json.manifest_bytes (record_of ds n) in
        let b₁ = law.written (manifest_key f) v b in
        let ne = manifest_key-ne-index f id.1 in
        let index₁ =
          Indexed-Keeps J B json law manifest_index_key (manifest_key f) _ b b₁ (λ e. ne (sym e))
            (Keeps-written J B json law b (manifest_key f) v) h.index in
        let (b', e, i, k) = add_to_index_lem J B json law b₁ manifest_index_key f _ index₁ in
        (
          b',
          rw (validate_digests_lem ds digests, json.manifest_written, law.put_lem) e,
          record {
            index =
                Indexed-same J B json law manifest_index_key _ _ b'
                  (λ x. is_some-insert x f ds m.files) i;
            valid = saved_valid b h;
            records = saved_records b b' h k;
          },
          outside_written J B json law manifest_prefix (manifest_key f) manifest_index_key v b b'
              (starts_with-manifest_key f) starts_manifest_index k,
        )

  module _ (m : Manifest) (f : Text) (id : IsFileId f) where
    removed_valid :
        (b : B.State)
        → DiskFiles b m
        → (g : Text) (es : List Text) → lookup g (remove f m.files) ≡ some es
        → IsFileId g × All IsDigest es
    removed_valid b h g es found = h.valid g es (ground (arith, lookup-remove g f m.files))

    removed_records :
        (b b₁ : B.State)
        → DiskFiles b m
        → Keeps J B json law manifest_index_key (law.deleted (manifest_key f) b) b₁
        → (g : Text) (es : List Text) → lookup g (remove f m.files) ≡ some es
        → (k : ℕ) × (lookup g (remove f m.file_bytes) ≡ some k)
          × (law.view b₁ (manifest_key g) ≡ some (json.manifest_bytes (record_of es k)))
    removed_records b b₁ h keeps g es found =
        let kept =
          keeps (manifest_key g) (manifest_key-ne-index g ((removed_valid b h g es found).0.1)) in
        let now = law.view-deleted (manifest_key f) b (manifest_key g) in
        let (k, bytes, stored) = h.records g es (ground (arith, lookup-remove g f m.files)) in
        (
          k,
          ground (arith, lookup-remove g f m.file_bytes, lookup-remove g f m.files),
          ground (arith, kept, now, manifest_key_inj g f, lookup-remove g f m.files),
        )

    pub remove_manifest_lem :
        (b : B.State)
        → DiskFiles b m
        → (b' : B.State) × (remove_manifest J B f b ≡ (ok tt, b'))
          × DiskFiles b' (without_file f m)
          × KeepsOutside J B json law manifest_prefix b b'
    unfolding remove_manifest
    remove_manifest_lem b h =
        let b₁ = law.deleted (manifest_key f) b in
        let ne = manifest_key-ne-index f id.1 in
        let index₁ =
          Indexed-Keeps J B json law manifest_index_key (manifest_key f) _ b b₁ (λ e. ne (sym e))
            (Keeps-deleted J B json law b (manifest_key f)) h.index in
        let (b', e, i, k) = remove_from_index_lem J B json law b₁ manifest_index_key f _ index₁ in
        (
          b',
          rw law.delete_lem e,
          record {
            index =
                Indexed-same J B json law manifest_index_key _ _ b'
                  (λ x. is_some-remove x f m.files) i;
            valid = removed_valid b h;
            records = removed_records b b' h k;
          },
          outside_deleted J B json law manifest_prefix (manifest_key f) manifest_index_key b b'
              (starts_with-manifest_key f) starts_manifest_index k,
        )
