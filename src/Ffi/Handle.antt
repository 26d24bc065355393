-- ===== src/Ffi/Handle.antt =====
-- `FfiStore` of core/src/ffi/store_ffi.rs: a store on callbacks or on files.
use chunkstore.Base.{ℕ, ◌⊎◌, List}
use chunkstore.Base.Text.{Text, Bytes}
use chunkstore.Exec.{Exec}
use chunkstore.FsBackend.System.{FilePath, FileSystem}
use chunkstore.FsBackend.Files.{Disk, fs_backend}
use chunkstore.Chunker.Cdc.{FastCdc}
use chunkstore.Chunker.Trait.{ReadEvent}
use chunkstore.Json.{Json}
use chunkstore.Stats.{Stats}
use chunkstore.Store
use chunkstore.Store.{Platform, ChunkStore}
use chunkstore.Ffi.Types.{ChunkBackendCallbacks}
use chunkstore.Ffi.Callback.{callback_backend}

-- The libraries, and the file system below the backend on files. `File::open` gives the bytes to
-- read or an error. `inl` carries the message of an error.
pub record Libraries : Type 1 where
  pub sha256 : Bytes → Bytes
  pub json : Json
  pub fast_cdc : FastCdc
  pub fs : FileSystem
  pub open_file : Text → Text ⊎ List ReadEvent

-- A store on an `FsBackend` with its root.
abbrev pub fs_platform : Libraries → FilePath → Platform
fs_platform L root = record {
  sha256 = L.sha256;
  json = L.json;
  fast_cdc = L.fast_cdc;
  backend = fs_backend L.fs root;
}

abbrev pub callback_platform : {U : Type 0} → Libraries → ChunkBackendCallbacks U → Platform
callback_platform L callbacks = record {
  sha256 = L.sha256;
  json = L.json;
  fast_cdc = L.fast_cdc;
  backend = callback_backend callbacks;
}

-- `FfiStoreInner`. The root of an `FsBackend` stands beside its store.
pub data FfiStore (U F : Type 0) : Type 0 where
  callback : ChunkStore U → FfiStore U F
  fs_store : FilePath → ChunkStore F → FfiStore U F

module _ {U : Type 0} (L : Libraries) (callbacks : ChunkBackendCallbacks U) where
  abbrev pub Handle : Type 0
  Handle = FfiStore U (Disk L.fs.State)

  -- `match &self.inner`
  unfoldable pub dispatch :
      {A : Type 0} → ((P : Platform) → Exec (ChunkStore P.backend.State) A) → Exec Handle A
  dispatch op (callback store) =
      let (r, store') = op (callback_platform L callbacks) store in (r, callback store')
  dispatch op (fs_store root store) =
      let (r, store') = op (fs_platform L root) store in (r, fs_store root store')

  unfoldable pub ingest : Text → Bytes → Exec Handle (List Text)
  unfolding dispatch
  ingest file_id content = dispatch (λ P. Store.ingest P file_id content)

  unfoldable pub ingest_cdc : Text → Bytes → Exec Handle (List Text)
  unfolding dispatch
  ingest_cdc file_id content = dispatch (λ P. Store.ingest_cdc P file_id content)

  unfoldable pub ingest_fixed : Text → Bytes → ℕ → Exec Handle (List Text)
  unfolding dispatch
  ingest_fixed file_id content chunk_size =
      dispatch (λ P. Store.ingest_fixed P file_id content chunk_size)

  unfoldable pub ingest_reader_fixed : Text → List ReadEvent → ℕ → Exec Handle (List Text)
  unfolding dispatch
  ingest_reader_fixed file_id reader chunk_size =
      dispatch (λ P. Store.ingest_reader_fixed P file_id reader chunk_size)

  unfoldable pub ingest_reader_cdc : Text → List ReadEvent → Exec Handle (List Text)
  unfolding dispatch
  ingest_reader_cdc file_id reader = dispatch (λ P. Store.ingest_reader_cdc P file_id reader)

  unfoldable pub ingest_path : Text → Text → Exec Handle (List Text)
  unfolding dispatch
  ingest_path file_id path = dispatch (λ P. Store.ingest_path P file_id (L.open_file path))

  unfoldable pub ingest_path_cdc : Text → Text → Exec Handle (List Text)
  unfolding dispatch
  ingest_path_cdc file_id path = dispatch (λ P. Store.ingest_path_cdc P file_id (L.open_file path))

  unfoldable pub read : Text → Exec Handle Bytes
  unfolding dispatch
  read file_id = dispatch (λ P. Store.read P file_id)

  module _ {V : Type 0} (write_all : Bytes → Exec V (Unit {0})) where
    unfoldable pub read_to_writer : Text → Exec (V × Handle) (Unit {0})
    read_to_writer file_id (w, callback store) =
        let (r, (w', store')) =
          Store.read_to_writer (callback_platform L callbacks) write_all file_id (w, store) in
        (r, (w', callback store'))
    read_to_writer file_id (w, fs_store root store) =
        let (r, (w', store')) =
          Store.read_to_writer (fs_platform L root) write_all file_id (w, store) in
        (r, (w', fs_store root store'))

  unfoldable pub delete : Text → Exec Handle (Unit {0})
  unfolding dispatch
  delete file_id = dispatch (λ P. Store.delete P file_id)

  unfoldable pub stats : Exec Handle Stats
  unfolding dispatch
  stats = dispatch (λ P. Store.stats_of P)
