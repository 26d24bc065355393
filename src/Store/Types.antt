-- ===== src/Store/Types.antt =====
-- The state of a `ChunkStore`, and what its methods reach for outside the sources. The four locks
-- are taken one at a time by one thread, so none is ever poisoned.
use chunkstore.Base.{Option}
use chunkstore.Base.Text.{Bytes}
use chunkstore.Exec.{Exec}
use chunkstore.Error.{Result}
use chunkstore.Backend.{ChunkBackend}
use chunkstore.Codec.{ChunkCodec}
use chunkstore.Json.{Json}
use chunkstore.Chunker.Cdc.{FastCdc}
use chunkstore.Manifest.{Manifest}
use chunkstore.RefCount.{RefCount}
use chunkstore.Stats.{Stats}

-- The libraries and the backend that a store is built on.
pub record Platform : Type 1 where
  pub sha256 : Bytes → Bytes
  pub json : Json
  pub fast_cdc : FastCdc
  pub backend : ChunkBackend

pub record ChunkStore (S : Type 0) : Type 0 where
  pub backend : S
  pub manifest : Manifest
  pub refcount : RefCount
  pub stats : Stats
  pub codec : Option ChunkCodec

module _ {S A : Type 0} where
  -- A call on one field, under its lock.
  abbrev pub on_backend : Exec S A → Exec (ChunkStore S) A
  on_backend m s = let (r, b) = m s.backend in (r, record s { backend = b })

  abbrev pub on_manifest : Exec Manifest A → Exec (ChunkStore S) A
  on_manifest m s = let (r, x) = m s.manifest in (r, record s { manifest = x })

  abbrev pub on_refcount : Exec RefCount A → Exec (ChunkStore S) A
  on_refcount m s = let (r, x) = m s.refcount in (r, record s { refcount = x })

  -- A read of the state.
  abbrev pub gets : (ChunkStore S → A) → Exec (ChunkStore S) A
  gets f s = (Result.ok (f s), s)

  -- A read that may fail.
  abbrev pub reads : (ChunkStore S → Result A) → Exec (ChunkStore S) A
  reads f s = (f s, s)

abbrev pub on_stats : {S : Type 0} → (Stats → Stats) → Exec (ChunkStore S) (Unit {0})
on_stats f s = (Result.ok tt, record s { stats = f s.stats })
