-- ===== src/Persistence/Load.antt =====
-- `load_refcounts` and `load_manifests` of core/src/store/persistence.rs give back what a mirror on
-- disk stands for.
use chunkstore.Base.{
  ℕ, ◌<◌, ◌≡◌, ◌≢◌, ◌∙◌, refl, sym, true, false, ◌==◌, ltb, inl, inr, some, List, [], ◌∷◌, arith,
  if◌then◌else◌, Bool-cases, Option-cases, is_some, is_empty, All,
}
use chunkstore.Base.Text.{Text, text_eq}
use chunkstore.Base.Map.{Map, lookup, insert, lookup-insert, NodupKeys, insert-NodupKeys}
use chunkstore.Error.{ok}
use chunkstore.Backend.{ChunkBackend}
use chunkstore.Backend.Lawful.{IsLawful, contains}
use chunkstore.Json.{Json, IsJson}
use chunkstore.Manifest
use chunkstore.Manifest.{Manifest, insert_file}
use chunkstore.RefCount.{RefCount, ChunkRef, set}
use chunkstore.Persistence.{
  load_refcount, load_refcounts_from, load_refcounts, load_manifest, load_manifests_from,
  load_manifests, manifest_key, parse_refcount_record,
}
use chunkstore.Persistence.Keys.{IsDigest, validate_digest_lem}
use chunkstore.Persistence.Index.{read_string_list_lem}
use chunkstore.Persistence.Refs.{DiskRefs}
use chunkstore.Persistence.Files.{DiskFiles, IsFileId, with_file, validate_digests_lem}

-- The listed entries of one map over those of another.
abbrev Overlaid {ℓ} : {V : Type ℓ} → List Text → Map V → Map V → Map V → Type ℓ
Overlaid ids m acc out =
    (k : Text) → lookup k out ≡ (if contains k ids then lookup k m else lookup k acc)

Overlaid-all {ℓ} :
    {V : Type ℓ} (ids : List Text) (m out : Map V)
    → Overlaid ids m [] out
    → ((k : Text) → contains k ids ≡ is_some (lookup k m))
    → (k : Text) → lookup k out ≡ lookup k m
unfolding lookup
Overlaid-all ids m out h agrees k = elim (Option-cases (lookup k m)) [
  | inl missing ↦ ground (arith, h k, agrees k)
  | inr (v, found) ↦ ground (arith, h k, agrees k)
]

Overlaid-cons {ℓ} :
    {V : Type ℓ} (id : Text) (v : V) (ids : List Text) (m acc out : Map V)
    → lookup id m ≡ some v
    → Overlaid ids m (insert id v acc) out
    → Overlaid (id ∷ ids) m acc out
Overlaid-cons id v ids m acc out found h k = elim (Bool-cases (text_eq k id)) [
  | inl same ↦
      let e : k ≡ id = ground arith in rw e (ground (arith, h id, lookup-insert id id v acc))
  | inr other ↦ ground (arith, h k, lookup-insert k id v acc)
]

module _ (J : Json) (B : ChunkBackend) (json : IsJson J) (law : IsLawful B) where
  load_refcount_lem :
      (b : B.State) (counts acc : RefCount) (d : Text) (r : ChunkRef)
      → DiskRefs J B json law b counts
      → lookup d counts ≡ some r
      → 0 < r.count
      → load_refcount J B d acc b ≡ (ok (insert d r acc), b)
  unfolding load_refcount parse_refcount_record set
  load_refcount_lem b counts acc d r h found pos =
      let yes_counted : ltb 0 r.count ≡ true = ground arith in
      let not_zero : (r.count == 0) ≡ false = ground arith in
      rw
        (
          validate_digest_lem d (h.valid d r found),
          law.get_lem,
          h.records d r found,
          json.refcount_read,
          yes_counted,
          not_zero,
        )
        refl

  load_refcounts_from_lem :
      (b : B.State) (counts : RefCount) (ids : List Text) (acc : RefCount)
      → DiskRefs J B json law b counts
      → ((d : Text) (r : ChunkRef) → lookup d counts ≡ some r → 0 < r.count)
      → ((d : Text) → contains d ids ≡ true → is_some (lookup d counts) ≡ true)
      → NodupKeys acc
      → (out : RefCount) × (load_refcounts_from J B ids acc b ≡ (ok out, b))
        × Overlaid ids counts acc out
        × NodupKeys out
  unfolding load_refcounts_from
  load_refcounts_from_lem b counts [] acc h pos known nodup = (acc, refl, λ k. refl, nodup)
  load_refcounts_from_lem b counts (d ∷ ids) acc h pos known nodup =
      elim (Option-cases (lookup d counts)) [
        | inl missing ↦ absurd (ground (arith, known d))
        | inr (r, found) ↦
            let (out, run, over, unique) =
              load_refcounts_from_lem b counts ids (insert d r acc) h pos
                (λ e c. known e (ground arith)) (insert-NodupKeys d r acc nodup) in
            (
              out,
              rw (load_refcount_lem b counts acc d r h found (pos d r found)) run,
              Overlaid-cons d r ids counts acc out found over,
              unique,
            )
      ]

  -- Loading the reference counts gives a map with the same entries.
  pub load_refcounts_lem :
      (b : B.State) (counts : RefCount)
      → DiskRefs J B json law b counts
      → ((d : Text) (r : ChunkRef) → lookup d counts ≡ some r → 0 < r.count)
      → (out : RefCount) × (load_refcounts J B b ≡ (ok out, b))
        × ((d : Text) → lookup d out ≡ lookup d counts)
        × NodupKeys out
  unfolding load_refcounts
  load_refcounts_lem b counts h pos =
      let i = h.index in
      let (out, run, over, unique) =
        load_refcounts_from_lem b counts i.ids [] h pos (λ d c. ground (arith, i.agrees d)) tt in
      (
        out,
        rw (read_string_list_lem J B json law b _ i.ids i.stored) run,
        Overlaid-all i.ids counts out over i.agrees,
        unique,
      )

  load_manifest_lem :
      (b : B.State) (m acc : Manifest) (f : Text) (ds : List Text) (n : ℕ)
      → IsFileId f
      → All IsDigest ds
      → law.view b (manifest_key f)
        ≡ some (json.manifest_bytes (record { digests = ds; file_bytes = n }))
      → load_manifest J B f acc b ≡ (ok (with_file f ds n acc), b)
  unfolding load_manifest insert_file
  load_manifest_lem b m acc f ds n id digests held =
      rw (law.get_lem, held, json.manifest_read, validate_digests_lem ds digests, not_empty f id.0)
        refl
    where
      not_empty : (f : Text) → f ≢ [] → is_empty f ≡ false
      not_empty [] h = absurd (h refl)
      not_empty (c ∷ f) h = refl

  load_manifests_from_lem :
      (b : B.State) (m : Manifest) (ids : List Text) (acc : Manifest)
      → DiskFiles J B json law b m
      → ((f : Text) → contains f ids ≡ true → is_some (lookup f m.files) ≡ true)
      → NodupKeys acc.files
      → (out : Manifest) × (load_manifests_from J B ids acc b ≡ (ok out, b))
        × Overlaid ids m.files acc.files out.files
        × Overlaid ids m.file_bytes acc.file_bytes out.file_bytes
        × NodupKeys out.files
  unfolding load_manifests_from
  load_manifests_from_lem b m [] acc h known nodup = (acc, refl, λ k. refl, λ k. refl, nodup)
  load_manifests_from_lem b m (f ∷ ids) acc h known nodup = elim (Option-cases (lookup f m.files)) [
    | inl missing ↦ absurd (ground (arith, known f))
    | inr (ds, found) ↦
        let (id, digests) = h.valid f ds found in
        let (n, bytes, held) = h.records f ds found in
        let (out, run, files, sizes, unique) =
          load_manifests_from_lem b m ids (with_file f ds n acc) h (λ e c. known e (ground arith))
            (insert-NodupKeys f ds acc.files nodup) in
        (
          out,
          rw (load_manifest_lem b m acc f ds n id digests held) run,
          Overlaid-cons f ds ids m.files acc.files out.files found files,
          Overlaid-cons f n ids m.file_bytes acc.file_bytes out.file_bytes bytes sizes,
          unique,
        )
  ]

  -- Loading the manifests gives a manifest with the same files, of which the backend is a mirror.
  pub load_manifests_lem :
      (b : B.State) (m : Manifest)
      → DiskFiles J B json law b m
      → (out : Manifest) × (load_manifests J B b ≡ (ok out, b))
        × ((f : Text) → lookup f out.files ≡ lookup f m.files)
        × DiskFiles J B json law b out
        × NodupKeys out.files
  unfolding load_manifests
  load_manifests_lem b m h =
      let i = h.index in
      let (out, run, files, sizes, unique) =
        load_manifests_from_lem b m i.ids Manifest.new h (λ f c. ground (arith, i.agrees f)) tt in
      let same = Overlaid-all i.ids m.files out.files files i.agrees in
      (
        out,
        rw (read_string_list_lem J B json law b _ i.ids i.stored) run,
        same,
        record {
          index = record { ids = i.ids; stored = i.stored; agrees = λ f. rw (same f) (i.agrees f) };
          valid = λ f ds found. h.valid f ds (sym (same f) ∙ found);
          records = λ f ds found.
              let (n, bytes, held) = h.records f ds (sym (same f) ∙ found) in
              let listed : contains f i.ids ≡ true = ground (arith, i.agrees f, same f) in
              (n, ground (arith, sizes f), held);
        },
        unique,
      )
