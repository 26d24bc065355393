-- ===== src/Postgres/Shared.antt =====
-- core/src/store/mod.rs in the build with the `postgres` feature, for a store that has a
-- `PostgresMetadata`: what the branches on `pg` do in place of the code that Store models. The blobs
-- stay on the backend.
use chunkstore.Base.{
  ℕ, Bool, if◌then◌else◌, Option, none, some, List, [], ◌∷◌, ◌++◌, map, length, ◌==◌,
}
use chunkstore.Base.Text.{Text, Bytes, codes}
use chunkstore.Base.Word.{add}
use chunkstore.Error.{Result, ok, err, hang, ok_or, not_found, invalid_argument}
use chunkstore.Exec.{Exec, pure, fail, lift, continue, ◌>>=◌, ◌>>◌, each}
use chunkstore.Hasher.{digest_hex}
use chunkstore.Manifest.{Manifest, insert_file, remove_file}
use chunkstore.RefCount.{RefCount}
use chunkstore.Stats.{Stats, default_stats}
use chunkstore.Chunker.Trait.{Chunker}
use chunkstore.Chunker.Fixed
use chunkstore.Chunker.Fixed.{fixed_chunker}
use chunkstore.Store.{
  Platform, ChunkStore, on_backend, on_manifest, on_stats, reads, Store, encode_with, put_blob,
  IngestSession, new_session, write_chunk, extend, FsckReport, find_missing, collect_orphans,
  unlink,
}
use chunkstore.Postgres.Server.{Server}
use chunkstore.Postgres.Rows.{
  connect, load_manifests, load_refcounts, manifest_digests, compute_stats, commit_ingest,
  commit_delete, list_refcounts,
}
use chunkstore.Postgres.Rows
use chunkstore.Store

-- The store with its field `pg`.
pub record Shared (S Db : Type 0) : Type 0 where
  pub store : ChunkStore S
  pub pg : Db

module _ (P : Platform) (Q : Server) where
  open P use {sha256, backend as B}

  abbrev pub SharedStore : Type 0
  SharedStore = Shared B.State Q.Db

  abbrev pub on_store : {A : Type 0} → Exec (Store P) A → Exec SharedStore A
  on_store m s = let (r, x) = m s.store in (r, record s { store = x })

  abbrev pub on_pg : {A : Type 0} → Exec Q.Db A → Exec SharedStore A
  on_pg m s = let (r, x) = m s.pg in (r, record s { pg = x })

  -- `store_chunk` returns before it counts anything.
  unfoldable pub store_chunk : Text → Bytes → Exec (Store P) Bool
  store_chunk digest content = do
    blob ← reads (λ s. encode_with s.codec content)
    put_blob P digest blob

  unfoldable pub accept : Bytes → Exec (IngestSession × Store P) (Unit {0})
  accept chunk (session, s) =
      let counted = record session { file_bytes = add session.file_bytes (length chunk) } in
      let digest = digest_hex sha256 chunk in
      let (r, s') = store_chunk digest chunk s in
      continue r
        (λ _ t. (
          ok tt,
          (
            record counted {
              sizes = session.sizes ++ length chunk ∷ [];
              digests = session.digests ++ digest ∷ [];
            },
            t.1,
          ),
        ))
        (counted, s')

  unfoldable pub peek_digests : Text → Exec SharedStore (Option (List Text))
  peek_digests file_id = on_pg (manifest_digests Q file_id)

  -- `for digest in gc { self.backend.delete(&digest)?; }`
  unfoldable pub delete_blobs : List Text → Exec SharedStore (Unit {0})
  delete_blobs gc = on_store (on_backend (each B.delete gc))

  -- `IngestSession::commit`
  unfoldable pub commit : IngestSession → Text → Exec SharedStore (List Text)
  unfolding delete_blobs
  commit session file_id = do
    old ← peek_digests file_id
    gc ← on_pg (commit_ingest Q file_id session.digests session.file_bytes session.sizes old)
    delete_blobs gc
    on_store (on_manifest (insert_file file_id session.digests session.file_bytes))
    pure session.digests

  abbrev pub run_session :
      Exec (IngestSession × Store P) (Unit {0}) → Text → Exec SharedStore (List Text)
  run_session accepting file_id s =
      let (r, (session, x)) = accepting (new_session, s.store) in
      continue r (λ _. commit session file_id) (record s { store = x })

  unfoldable pub ingest_chunks : Text → List Bytes → Exec SharedStore (List Text)
  ingest_chunks file_id chunks = run_session (each accept chunks) file_id

  unfoldable pub feed_all :
      (C : Chunker) → Bytes → C.State → Exec (IngestSession × Store P) (Unit {0})
  feed_all C content c t =
      let (fed, c') = C.feed content c in
      let (last, _) = C.finish c' in
      continue fed (λ chunks. each accept chunks >> (λ u. continue last (each accept) u)) t

  unfoldable pub ingest_with_chunker :
      (C : Chunker) → Text → Bytes → C.State → Exec SharedStore (List Text)
  unfolding feed_all
  ingest_with_chunker C file_id content c = run_session (feed_all C content c) file_id

  unfoldable pub ingest_fixed : Text → Bytes → ℕ → Exec SharedStore (List Text)
  ingest_fixed file_id content chunk_size =
      if chunk_size == 0
      then fail (invalid_argument (codes "chunk_size must be greater than 0"))
      else ingest_with_chunker fixed_chunker file_id content (Fixed.new chunk_size)

  unfoldable pub ingest : Text → Bytes → Exec SharedStore (List Text)
  ingest file_id content = ingest_fixed file_id content Fixed.default_chunk_size

  unfoldable pub digests_for_file : Text → Exec SharedStore (List Text)
  digests_for_file file_id = do
    found ← on_pg (manifest_digests Q file_id)
    lift (ok_or found (not_found (codes "file " ++ file_id)))

  -- The loop of `read_to_writer`, on the writer beside the store.
  abbrev pub beside :
      {V : Type 0} → Exec (V × Store P) (Unit {0}) → Exec (V × SharedStore) (Unit {0})
  beside m (w, s) = let (r, (w', x)) = m (w, s.store) in (r, (w', record s { store = x }))

  module _ {V : Type 0} (write_all : Bytes → Exec V (Unit {0})) where
    unfoldable pub read_to_writer : Text → Exec (V × SharedStore) (Unit {0})
    read_to_writer file_id (w, s) =
        let (r, s') = digests_for_file file_id s in
        continue r (λ digests. beside (each (write_chunk P write_all) digests)) (w, s')

  unfoldable pub read : Text → Exec SharedStore Bytes
  unfolding read_to_writer
  read file_id s =
      let (r, (out, s')) = read_to_writer (extend P) file_id ([], s) in
      continue r (λ _. pure out) s'

  -- `let _ = manifest.remove(file_id);`
  unfoldable pub forget_file : Text → Exec SharedStore (Unit {0})
  forget_file file_id = on_store (on_manifest (λ m. (ok tt, (remove_file file_id m).1)))

  unfoldable pub delete : Text → Exec SharedStore (Unit {0})
  unfolding delete_blobs forget_file
  delete file_id = do
    digests ← digests_for_file file_id
    gc ← on_pg (commit_delete Q file_id digests)
    delete_blobs gc
    forget_file file_id

  -- `chunk_size`: the database's size, else what the store alone knows.
  unfoldable pub chunk_size : Text → Exec SharedStore ℕ
  chunk_size digest = do
    known ← on_pg (Rows.chunk_size Q digest)
    elim known [ some size ↦ pure size | none ↦ on_store (chunkstore.Store.chunk_size P digest) ]

  unfoldable pub rebuild_stats : Exec SharedStore (Unit {0})
  rebuild_stats = do stats ← on_pg (compute_stats Q); on_store (on_stats (λ _. stats))

  -- `stats()`
  unfoldable pub stats_of : Exec SharedStore Stats
  stats_of = on_pg (compute_stats Q)

  unfoldable pub fsck : Bool → Exec SharedStore FsckReport
  fsck repair = do
    refs ← on_pg (list_refcounts Q)
    let live = map (λ (r : Text × ℕ × ℕ). r.0) refs
    missing ← on_store (find_missing P live [])
    orphan ← on_store (on_backend (collect_orphans P live))
    repaired ← (if repair then on_store (unlink P orphan 0) else pure 0)
    pure (record { missing_blobs = missing; orphan_blobs = orphan; repaired = repaired })

  abbrev assemble : Manifest → RefCount → B.State → Q.Db → SharedStore
  assemble manifest refcount b db = record {
    store = record {
      backend = b;
      manifest = manifest;
      refcount = refcount;
      stats = default_stats;
      codec = none;
    };
    pg = db;
  }

  -- What is loaded from the connected database, and the store with it.
  unfoldable pub open_connected : B.State → Q.Db → Result SharedStore
  unfolding rebuild_stats
  open_connected b db =
      let (loaded, db₁) = load_manifests Q db in
      chunkstore.Error.◌>>=◌ loaded λ manifest.
        let (counts, db₂) = load_refcounts Q db₁ in
        chunkstore.Error.◌>>=◌ counts λ refcount.
          let (done, store) = rebuild_stats (assemble manifest refcount b db₂) in
          chunkstore.Error.◌>>=◌ done λ _. ok store

  unfoldable pub open_postgres : B.State → Text → Result SharedStore
  open_postgres b dsn = chunkstore.Error.◌>>=◌ (connect Q dsn) (open_connected b)
