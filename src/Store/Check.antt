-- ===== src/Store/Check.antt =====
-- core/src/store/fsck.rs and `ChunkStore::fsck`.
use chunkstore.Base.{ℕ, Bool, not, ◌&&◌, if◌then◌else◌, none, some, List, [], ◌∷◌, ◌++◌, map}
use chunkstore.Base.Text.{Text}
use chunkstore.Base.Word.{add}
use chunkstore.Exec.{Exec, pure, ◌>>=◌, ◌>>◌}
use chunkstore.Backend.Lawful.{contains}
use chunkstore.RefCount.{iter_refs}
use chunkstore.Store.Types.{Platform, on_backend, gets}
use chunkstore.Store.Chunks.{Store}
use chunkstore.Store.Digest.{is_chunk_digest}

pub record FsckReport : Type 0 where
  pub missing_blobs : List Text
  pub orphan_blobs : List Text
  pub repaired : ℕ

-- `is_chunk_digest(key) && !live.contains(key)`
unfoldable pub orphans : List Text → List Text → List Text
orphans live [] = []
orphans live (key ∷ keys) =
    let rest = orphans live keys in
    if is_chunk_digest key && not (contains key live) then key ∷ rest else rest

module _ (P : Platform) where
  open P use {backend as B}

  unfoldable pub collect_orphans : List Text → Exec B.State (List Text)
  collect_orphans live = do
    listed ← B.list_keys []
    pure (elim listed [ none ↦ [] | some keys ↦ orphans live keys ])

  -- The loop that fills `missing_blobs`.
  unfoldable pub find_missing : List Text → List Text → Exec (Store P) (List Text)
  find_missing [] missing = pure missing
  find_missing (digest ∷ live) missing = do
    exists ← on_backend (B.exists digest)
    find_missing live (if exists then missing else missing ++ digest ∷ [])

  -- The loop that unlinks the orphans; it counts them in `repaired`.
  unfoldable pub unlink : List Text → ℕ → Exec (Store P) ℕ
  unlink [] repaired = pure repaired
  unlink (key ∷ keys) repaired = do on_backend (B.delete key); unlink keys (add repaired 1)

  unfoldable pub fsck : Bool → Exec (Store P) FsckReport
  unfolding find_missing unlink
  fsck repair = do
    live ← gets (λ s. map (λ r. r.0) (iter_refs s.refcount))
    missing ← find_missing live []
    orphan ← on_backend (collect_orphans live)
    repaired ← (if repair then unlink orphan 0 else pure 0)
    pure (record { missing_blobs = missing; orphan_blobs = orphan; repaired = repaired })
