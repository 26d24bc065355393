-- ===== src/Store/Chunks.antt =====
-- Chunks: `store_chunk`, `read_chunk_by_digest`, `chunk_size` and `release_digests`.
use chunkstore.Base.{ℕ, Bool, ◌==◌, ltb, if◌then◌else◌, Option, none, some, List, ◌++◌, length}
use chunkstore.Base.Text.{Text, Bytes, codes}
use chunkstore.Error.{Result, ok, ok_or, not_found}
use chunkstore.Exec.{Exec, pure, lift, ◌>>=◌, ◌>>◌, each}
use chunkstore.Codec.{ChunkCodec}
use chunkstore.Hasher.{verify_digest}
use chunkstore.Persistence.{save_refcount, remove_refcount}
use chunkstore.RefCount
use chunkstore.Stats.{add_reference, add_unique_chunk, remove_reference, remove_unique_chunk}
use chunkstore.Store.Types.{Platform, ChunkStore, on_backend, on_refcount, on_stats, gets, reads}

-- `codec.encode(data)?`, or the data as it is.
abbrev pub encode_with : Option ChunkCodec → Bytes → Result Bytes
encode_with none content = ok content
encode_with (some codec) content = codec.encode content

abbrev pub decode_with : Option ChunkCodec → Bytes → Result Bytes
decode_with none stored = ok stored
decode_with (some codec) stored = codec.decode stored

abbrev pub size_or : Option ℕ → ℕ → ℕ
size_or none size = size
size_or (some stored) size = stored

-- `if size > 0 { return Ok(size) }` on what is recorded.
abbrev recorded : Option ℕ → Option ℕ
recorded none = none
recorded (some size) = if ltb 0 size then some size else none

module _ (P : Platform) where
  open P use {sha256, json, backend as B}

  abbrev pub Store : Type 0
  Store = ChunkStore B.State

  -- The block under the `blob` lock: put the blob if it is not there.
  unfoldable pub put_blob : Text → Bytes → Exec Store Bool
  put_blob digest blob = do
    exists ← on_backend (B.exists digest)
    if exists then pure exists else do on_backend (B.put digest blob); pure exists

  -- The block under the `refcount` lock.
  unfoldable pub count_reference : Text → ℕ → Exec Store (Unit {0})
  count_reference digest size = do
    count ← on_refcount (RefCount.increment digest size)
    stored_size ← gets (λ s. size_or (RefCount.size_of digest s.refcount) size)
    on_backend (save_refcount json B digest count stored_size)

  unfoldable pub store_chunk : Text → Bytes → Exec Store Bool
  unfolding put_blob count_reference
  store_chunk digest content = do
    blob ← reads (λ s. encode_with s.codec content)
    let size = length content
    exists ← put_blob digest blob
    count_reference digest size
    on_stats (if exists then add_reference size else add_unique_chunk size)
    pure exists

  unfoldable pub read_chunk_by_digest : Text → Exec Store Bytes
  read_chunk_by_digest digest = do
    found ← on_backend (B.get digest)
    stored ← lift (ok_or found (not_found (codes "chunk " ++ digest)))
    chunk ← reads (λ s. decode_with s.codec stored)
    lift (verify_digest sha256 chunk digest)
    pure chunk

  -- `read_chunk` of the source is this.
  abbrev pub read_chunk : Text → Exec Store Bytes
  read_chunk digest = read_chunk_by_digest digest

  -- The size from the blob, where none is recorded.
  unfoldable pub blob_size : Text → Exec Store ℕ
  blob_size digest = do
    found ← on_backend (B.get digest)
    stored ← lift (ok_or found (not_found (codes "chunk " ++ digest)))
    chunk ← reads (λ s. decode_with s.codec stored)
    pure (length chunk)

  unfoldable pub chunk_size : Text → Exec Store ℕ
  unfolding blob_size
  chunk_size digest = do
    known ← gets (λ s. recorded (RefCount.size_of digest s.refcount))
    elim known [ some size ↦ pure size | none ↦ blob_size digest ]

  -- The two branches on the count that remains.
  unfoldable pub drop_chunk : Text → ℕ → Exec Store (Unit {0})
  drop_chunk digest size = do
    on_backend (B.delete digest)
    on_backend (remove_refcount json B digest)
    on_stats (remove_unique_chunk size)

  -- One round of `release_digests`.
  unfoldable pub release_digest : Text → Exec Store (Unit {0})
  unfolding drop_chunk
  release_digest digest = do
    size ← chunk_size digest
    remaining ← on_refcount (RefCount.decrement digest)
    if remaining == 0
        then drop_chunk digest size
        else on_backend (save_refcount json B digest remaining size)
    on_stats (remove_reference size)

  unfoldable pub release_digests : List Text → Exec Store (Unit {0})
  release_digests digests = each release_digest digests

  unfoldable pub chunk_refcount : Text → Exec Store (Option ℕ)
  chunk_refcount digest = gets (λ s. RefCount.get digest s.refcount)
