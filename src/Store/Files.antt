-- ===== src/Store/Files.antt =====
-- Files: the ingest session, reading and deleting.
use chunkstore.Base.{
  ◌⊎◌, inl, inr, ℕ, ◌==◌, if◌then◌else◌, Option, none, some, List, [], ◌∷◌, ◌++◌, length,
}
use chunkstore.Base.Text.{Text, Bytes, codes}
use chunkstore.Base.Word.{add}
use chunkstore.Error.{ok, invalid_argument, io_error}
use chunkstore.Exec.{Exec, pure, fail, lift, continue, ◌>>=◌, ◌>>◌, each}
use chunkstore.Hasher.{digest_hex}
use chunkstore.Persistence.{save_manifest, remove_manifest}
use chunkstore.Manifest
use chunkstore.Manifest.{insert_file, remove_file}
use chunkstore.Chunker.{for_each_chunk}
use chunkstore.Chunker.Trait.{Chunker, ReadEvent}
use chunkstore.Chunker.Fixed
use chunkstore.Chunker.Fixed.{fixed_chunker}
use chunkstore.Chunker.Cdc
use chunkstore.Chunker.Cdc.{cdc_chunker}
use chunkstore.Store.Types.{Platform, on_backend, on_manifest, gets, reads}
use chunkstore.Store.Chunks.{Store, store_chunk, read_chunk_by_digest, release_digests}

pub record IngestSession : Type 0 where
  pub digests : List Text
  pub sizes : List ℕ
  pub file_bytes : ℕ

abbrev pub new_session : IngestSession
new_session = record { digests = []; sizes = []; file_bytes = 0 }

module _ (P : Platform) where
  open P use {sha256, json, fast_cdc, backend as B}

  -- `IngestSession::accept`: the session changes beside the store.
  unfoldable pub accept : Bytes → Exec (IngestSession × Store P) (Unit {0})
  accept chunk (session, s) =
      let counted = record session { file_bytes = add session.file_bytes (length chunk) } in
      let digest = digest_hex sha256 chunk in
      let (r, s') = store_chunk P digest chunk s in
      continue r
        (λ _ t. (
          ok tt,
          (
            record counted {
              sizes = session.sizes ++ length chunk ∷ [];
              digests = session.digests ++ digest ∷ [];
            },
            t.1,
          ),
        ))
        (counted, s')

  unfoldable pub peek_digests : Text → Exec (Store P) (Option (List Text))
  peek_digests file_id = gets (λ s. Manifest.try_get file_id s.manifest)

  unfoldable pub release_old : Option (List Text) → Exec (Store P) (Unit {0})
  release_old none = pure tt
  release_old (some old) = release_digests P old

  -- `IngestSession::commit`
  unfoldable pub commit : IngestSession → Text → Exec (Store P) (List Text)
  unfolding release_old
  commit session file_id = do
    old ← peek_digests file_id
    on_manifest (insert_file file_id session.digests session.file_bytes)
    on_backend (save_manifest json B file_id session.digests session.file_bytes)
    release_old old
    pure session.digests

  -- A session that accepts chunks, then commits.
  abbrev pub run_session :
      Exec (IngestSession × Store P) (Unit {0}) → Text → Exec (Store P) (List Text)
  run_session accepting file_id s =
      let (r, (session, s')) = accepting (new_session, s) in
      continue r (λ _. commit session file_id) s'

  unfoldable pub ingest_chunks : Text → List Bytes → Exec (Store P) (List Text)
  ingest_chunks file_id chunks = run_session (each accept chunks) file_id

  -- The loop of `ingest_with_chunker` over a chunker's two results.
  unfoldable pub feed_all :
      (C : Chunker) → Bytes → C.State → Exec (IngestSession × Store P) (Unit {0})
  feed_all C content c t =
      let (fed, c') = C.feed content c in
      let (last, _) = C.finish c' in
      continue fed (λ chunks. each accept chunks >> (λ u. continue last (each accept) u)) t

  unfoldable pub ingest_with_chunker :
      (C : Chunker) → Text → Bytes → C.State → Exec (Store P) (List Text)
  unfolding feed_all
  ingest_with_chunker C file_id content c = run_session (feed_all C content c) file_id

  -- The loop of `for_each_chunk`, without the state of the chunker that it leaves.
  abbrev pub stream :
      (C : Chunker) → List ReadEvent → C.State → Exec (IngestSession × Store P) (Unit {0})
  stream C reader c t = let (r, (_, t')) = for_each_chunk C accept reader (c, t) in (r, t')

  unfoldable pub ingest_reader_with_chunker :
      (C : Chunker) → Text → List ReadEvent → C.State → Exec (Store P) (List Text)
  ingest_reader_with_chunker C file_id reader c = run_session (stream C reader c) file_id

  abbrev pub no_size : Exec (Store P) (List Text)
  no_size = fail (invalid_argument (codes "chunk_size must be greater than 0"))

  unfoldable pub ingest_fixed : Text → Bytes → ℕ → Exec (Store P) (List Text)
  ingest_fixed file_id content chunk_size =
      if chunk_size == 0
      then no_size
      else ingest_with_chunker fixed_chunker file_id content (Fixed.new chunk_size)

  unfoldable pub ingest : Text → Bytes → Exec (Store P) (List Text)
  ingest file_id content = ingest_fixed file_id content Fixed.default_chunk_size

  unfoldable pub ingest_cdc : Text → Bytes → Exec (Store P) (List Text)
  ingest_cdc file_id content = do
    chunker ← lift Cdc.with_defaults
    ingest_with_chunker (cdc_chunker fast_cdc) file_id content chunker

  unfoldable pub ingest_reader_fixed : Text → List ReadEvent → ℕ → Exec (Store P) (List Text)
  ingest_reader_fixed file_id reader chunk_size =
      if chunk_size == 0
      then no_size
      else ingest_reader_with_chunker fixed_chunker file_id reader (Fixed.new chunk_size)

  unfoldable pub ingest_reader_cdc : Text → List ReadEvent → Exec (Store P) (List Text)
  ingest_reader_cdc file_id reader = do
    chunker ← lift Cdc.with_defaults
    ingest_reader_with_chunker (cdc_chunker fast_cdc) file_id reader chunker

  -- What `File::open` gives, as bytes to read or an error.
  abbrev from_file :
      (List ReadEvent → Exec (Store P) (List Text))
      → Text ⊎ List ReadEvent
      → Exec (Store P) (List Text)
  from_file ingest_reader (inl e) = fail (io_error e)
  from_file ingest_reader (inr file) = ingest_reader file

  unfoldable pub ingest_path : Text → Text ⊎ List ReadEvent → Exec (Store P) (List Text)
  ingest_path file_id file =
      from_file (λ reader. ingest_reader_fixed file_id reader Fixed.default_chunk_size) file

  unfoldable pub ingest_path_cdc : Text → Text ⊎ List ReadEvent → Exec (Store P) (List Text)
  ingest_path_cdc file_id file = from_file (ingest_reader_cdc file_id) file

  unfoldable pub digests_for_file : Text → Exec (Store P) (List Text)
  digests_for_file file_id = reads (λ s. Manifest.get file_id s.manifest)

  -- `file_digests` of the source is this.
  abbrev pub file_digests : Text → Exec (Store P) (List Text)
  file_digests file_id = digests_for_file file_id

  module _ {W : Type 0} (write_all : Bytes → Exec W (Unit {0})) where
    -- One round of `read_to_writer`, on the writer beside the store.
    abbrev pub write_chunk : Text → Exec (W × Store P) (Unit {0})
    write_chunk digest (w, s) =
        let (r, s') = read_chunk_by_digest P digest s in
        continue r (λ chunk t. let (written, w') = write_all chunk t.0 in (written, (w', t.1)))
          (w, s')

    unfoldable pub read_to_writer : Text → Exec (W × Store P) (Unit {0})
    read_to_writer file_id (w, s) =
        let (r, s') = digests_for_file file_id s in continue r (each write_chunk) (w, s')

  -- A `Vec<u8>` as the writer.
  abbrev pub extend : Bytes → Exec Bytes (Unit {0})
  extend chunk out = (ok tt, out ++ chunk)

  unfoldable pub read : Text → Exec (Store P) Bytes
  unfolding read_to_writer
  read file_id s =
      let (r, (out, s')) = read_to_writer extend file_id ([], s) in continue r (λ _. pure out) s'

  unfoldable pub delete : Text → Exec (Store P) (Unit {0})
  delete file_id = do
    digests ← on_manifest (remove_file file_id)
    on_backend (remove_manifest json B file_id)
    release_digests P digests
