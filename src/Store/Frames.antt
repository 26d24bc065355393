-- ===== src/Store/Frames.antt =====
-- What a change of one blob, or of the reference counts, leaves of a store's metadata.
use chunkstore.Base.{◌≡◌, ◌≢◌, ap, true, false, Option}
use chunkstore.Base.Text.{Text, Bytes}
use chunkstore.Manifest.{Manifest}
use chunkstore.RefCount.{RefCount}
use chunkstore.Persistence.Keys.{
  IsDigest, starts_with-digest_manifest, starts_with-digest_refcount, prefixes_disjoint,
  prefixes_disjoint_sym, manifest_prefix, refcount_prefix,
}
use chunkstore.Backend.Lawful.{starts_with}
use chunkstore.Persistence.Disk.{KeepsOutside}
use chunkstore.Persistence.Refs.{DiskRefs, DiskRefs-frame}
use chunkstore.Persistence.Files.{DiskFiles, DiskFiles-frame}
use chunkstore.Store.World.{World}

module _ (W : World) where
  abbrev pub BState : Type 0
  BState = W.platform.backend.State

  abbrev pub seen : BState → Text → Option Bytes
  seen b k = W.lawful.view b k

  abbrev pub Disk : BState → RefCount → Type 0
  Disk = DiskRefs W.platform.json W.platform.backend W.json W.lawful

  abbrev pub Files : BState → Manifest → Type 0
  Files = DiskFiles W.platform.json W.platform.backend W.json W.lawful

  -- Nothing but the blob under `d` has changed.
  abbrev pub KeepsBut : Text → BState → BState → Type 0
  KeepsBut d b b' = (k : Text) → k ≢ d → seen b' k ≡ seen b k

  ne_prefixed :
      (d k prefix : Text) → starts_with d prefix ≡ false → starts_with k prefix ≡ true → k ≢ d
  ne_prefixed d k prefix o s e = cc (ap (λ z. starts_with z prefix) e)

  pub Disk-KeepsBut :
      (d : Text) (b b' : BState) (counts : RefCount)
      → IsDigest d
      → KeepsBut d b b'
      → Disk b counts
      → Disk b' counts
  Disk-KeepsBut d b b' counts h keeps =
      DiskRefs-frame W.platform.json W.platform.backend W.json W.lawful counts b b'
        λ k s. keeps k (ne_prefixed d k refcount_prefix (starts_with-digest_refcount d h) s)

  pub Files-KeepsBut :
      (d : Text) (b b' : BState) (m : Manifest)
      → IsDigest d
      → KeepsBut d b b'
      → Files b m
      → Files b' m
  Files-KeepsBut d b b' m h keeps =
      DiskFiles-frame W.platform.json W.platform.backend W.json W.lawful m b b'
        λ k s. keeps k (ne_prefixed d k manifest_prefix (starts_with-digest_manifest d h) s)

  pub Files-outside :
      (b b' : BState) (m : Manifest)
      → KeepsOutside W.platform.json W.platform.backend W.json W.lawful refcount_prefix b b'
      → Files b m
      → Files b' m
  Files-outside b b' m keeps =
      DiskFiles-frame W.platform.json W.platform.backend W.json W.lawful m b b'
        λ k s. keeps k (prefixes_disjoint k s)

  pub Disk-outside :
      (b b' : BState) (counts : RefCount)
      → KeepsOutside W.platform.json W.platform.backend W.json W.lawful manifest_prefix b b'
      → Disk b counts
      → Disk b' counts
  Disk-outside b b' counts keeps =
      DiskRefs-frame W.platform.json W.platform.backend W.json W.lawful counts b b'
        λ k s. keeps k (prefixes_disjoint_sym k s)
