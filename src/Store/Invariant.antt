-- ===== src/Store/Invariant.antt =====
-- The invariant of a store.
use chunkstore.Base.{
  ℕ, ◌+◌, ◌<◌, ◌≡◌, ◌∙◌, refl, true, Option, some, List, [], ◌∷◌, arith, length, if◌then◌else◌,
  is_some,
}
use chunkstore.Base.Text.{Text, Bytes, text_eq}
use chunkstore.Base.Word.{word_size}
use chunkstore.Base.Map.{Map, lookup, NodupKeys, total}
use chunkstore.Hasher.{digest_hex}
use chunkstore.Hasher.Laws.{digest_hex-IsDigest}
use chunkstore.RefCount.{ChunkRef}
use chunkstore.RefCount.Laws.{count_of}
use chunkstore.Persistence.Keys.{IsDigest}
use chunkstore.Persistence.Refs.{DiskRefs}
use chunkstore.Persistence.Files.{DiskFiles}
use chunkstore.Store.Chunks.{Store}
use chunkstore.Store.World.{World}

-- How often a digest stands in a list.
abbrev pub occurs : Text → List Text → ℕ
occurs d [] = 0
occurs d (e ∷ ds) = (if text_eq d e then 1 else 0) + occurs d ds

-- How often the files name a digest.
abbrev pub named : Text → Map (List Text) → ℕ
named d files = total (λ _ ds. occurs d ds) files

-- A count that no file explains (yet, or any more).
abbrev pub Pending : Type 0
Pending = Text → ℕ

abbrev pub nothing : Pending
nothing d = 0

module _ (W : World) where
  abbrev pub WStore : Type 0
  WStore = Store W.platform

  abbrev pub digest : Bytes → Text
  digest = digest_hex W.platform.sha256

  -- The bytes that the backend holds under a key.
  abbrev pub view : WStore → Text → Option Bytes
  view s k = W.lawful.view s.backend k

  -- A chunk whose blob the backend holds under its digest.
  pub record Holds (s : WStore) (d : Text) : Type 0 where
    pub content : Bytes
    pub known : W.Known content
    pub digest_lem : digest content ≡ d
    pub held : view s d ≡ some (W.coding.blob content)

  pub record Inv (p : Pending) (s : WStore) : Type 0 where
    pub codec : s.codec ≡ W.codec
    pub files_nodup : NodupKeys s.manifest.files
    pub refs_nodup : NodupKeys s.refcount
    -- Each count is the number of places that name the digest.
    pub counts : (d : Text) → count_of (lookup d s.refcount) ≡ p d + named d s.manifest.files
    pub positive :
        (d : Text) (r : ChunkRef)
        → lookup d s.refcount ≡ some r
        → (0 < r.count) × (r.count < word_size)
    -- What stands under a digest is the blob of a chunk with that digest.
    pub honest : (d : Text) → IsDigest d → is_some (view s d) ≡ true → Holds s d
    -- A digest that is counted has its blob, and the recorded size is its chunk's.
    pub present :
        (d : Text) (r : ChunkRef)
        → lookup d s.refcount ≡ some r
        → (h : Holds s d) × (r.size ≡ length h.content)
    pub disk_refs : DiskRefs W.platform.json W.platform.backend W.json W.lawful s.backend s.refcount
    pub disk_files :
        DiskFiles W.platform.json W.platform.backend W.json W.lawful s.backend s.manifest

  -- The same chunk, in a store whose backend holds the same bytes under the digest.
  pub Holds-move :
      (s t : WStore) (d : Text)
      → view t d ≡ view s d
      → (h : Holds s d) → (k : Holds t d) × (k.content ≡ h.content)
  Holds-move s t d same h = (
    record {
      content = h.content;
      known = h.known;
      digest_lem = h.digest_lem;
      held = same ∙ h.held;
    },
    refl,
  )

  pub digest-IsDigest : (c : Bytes) → IsDigest (digest c)
  digest-IsDigest c = digest_hex-IsDigest W.platform.sha256 W.hash c

  pub Inv-pending : (p q : Pending) (s : WStore) → ((d : Text) → p d ≡ q d) → Inv p s → Inv q s
  Inv-pending p q s same h = record {
    codec = h.codec;
    files_nodup = h.files_nodup;
    refs_nodup = h.refs_nodup;
    counts = λ d. omega (arith, h.counts d, same d);
    positive = h.positive;
    honest = h.honest;
    present = h.present;
    disk_refs = h.disk_refs;
    disk_files = h.disk_files;
  }
