-- ===== src/Lib.antt =====
-- chunkstore keeps files as lists of content-addressed chunks. A chunker cuts a file; each chunk is
-- stored under the SHA-256 of its plaintext, once however many files share it; a manifest lists the
-- digests of each file; a reference count says how often a digest is named, and the blob goes with
-- the last reference. Manifests and counts live in memory and are mirrored on the backend as JSON.
--
-- The parts, and the modules that model them:
-- - Hasher: core/src/hasher.rs, with its hexadecimal printing. SHA-256 itself is a parameter.
-- - Chunker: core/src/chunker/. Chunker.Trait is the trait, Chunker the loops `for_each_chunk` and
--   `chunk_reader`, Chunker.Fixed and Chunker.Cdc the two chunkers. A reader is the list of what its
--   calls of `read` return. The cut points of the `fastcdc` crate are a parameter, which gives
--   none where the crate panics. The theorems assume that it does not within the limits that the crate
--   asserts, and that the cuts then follow one another from end to end (Chunker.Cdc.Tiles.IsFastCdc).
-- - RefCount, Manifest, Stats, Codec: the files of these names in core/src/store/. A hash map is an
--   association list; nothing proved depends on its order. `u64` additions wrap at 2 ^ 64 (Base.Word).
--   Stats.savings_pct computes with floating point and is not modelled.
-- - Backend: the trait `ChunkBackend` and `MemoryBackend` of core/src/store/mod.rs. Backend.Lawful says
--   what the store relies on: a map from keys to bytes whose calls do not fail.
-- - Json, Persistence: core/src/store/persistence.rs, the records under `_manifest/` and `_refcount/`
--   with their indexes. `serde_json` is a parameter (Json.IsJson: what is written is read back).
-- - Store: `ChunkStore` of core/src/store/mod.rs and core/src/store/fsck.rs. Store.Chunks stores, reads
--   and releases chunks; Store.Files is `IngestSession`, the ways to ingest, reading and deleting;
--   Store.Open is opening; Store.Check is `fsck`. Store.Overtaking lets a second thread run between the
--   locks of `store_chunk`, and Store.Legacy is about counts that were saved without a size. Store.Invariant is the
--   invariant of a store, Store.Storing to Store.Commit show that the calls keep it, and the modules
--   behind them hold the results.
-- - Postgres: core/src/store/postgres_meta.rs, and what `ChunkStore` of core/src/store/mod.rs does when its
--   field `pg` is set (Postgres.Shared and Postgres.Streams, with names as in Store). The `postgres` crate and the server behind
--   it are a parameter (Postgres.Server), with a field for each SQL statement of the source;
--   Postgres.Laws.IsServer is what Postgres documents for them, the CHECK constraints included, and
--   Postgres.Laws.IsUp is a database that refuses nothing else. A transaction is a copy that is committed or
--   rolled back, with one client at a time; a COMMIT that fails may have taken effect. Postgres.Rows has
--   the methods of `PostgresMetadata`, Postgres.Counting to Postgres.Effects what they do to the tables,
--   and the modules behind them the store.
-- - Ffi: core/src/ffi/. Ffi.Callback is `CallbackBackend`, Ffi.Handle `FfiStore`, Ffi.Calls the functions that
--   C programs call, Ffi.Reply what they answer, Ffi.Utf8 the checks of `CStr::to_str` and `CString::new`. A
--   pointer is null or points to what is given, a callback is a function of the caller's state, and
--   a handle on files is a store on FsBackend, with its root, over the file system of FsBackend.System.
--   Releasing memory is not modelled.
-- - FsBackend: core/src/store/fs_backend.rs. FsBackend.Key is `key_to_path`, over paths as `std::path` has them
--   on Unix, FsBackend.Files the other methods. `std::fs` is a parameter (FsBackend.System) whose calls may
--   fail; FsBackend.Laws says what they do to regular files. A path that holds a file is taken to
--   lead there alone, without links.
-- - Example: stand-ins for the libraries that meet the laws, stores built with them, and the theorems
--   applied there.
--
-- Methods that change an object are functions from its state to a result and the state that they
-- leave (Exec), beside an error too, since what was written before an error stays written. The locks
-- are taken one at a time by one thread and are never poisoned. Logging does not occur.
--
-- Fuel: the `while` loop of `FixedChunker::feed` takes fuel, one round more than the buffer has bytes.
-- That is enough for every positive chunk size, since each round takes a byte at least. Printing a
-- `u64` takes 20 rounds, one for each digit that it can have. `collect_keys` takes one round more than
-- the operating system lets the path to a directory be long. Debug assertions are off.
--
-- SHA-256 has collisions, so no theorem takes it to be injective: Store.World.World names the chunks
-- that a run meets and asks that no two of them have one digest.
--
-- Store is built without the `postgres` feature, which is off by default. Not modelled: any other
-- interleaving of threads or processes, several clients of one database, crashes between two
-- writes, and the Python and Go bindings. A panic is the result `hang`, which also stands for a loop
-- without end.
pub mod Base
pub mod Error
pub mod Exec
pub mod Hasher
pub mod Chunker
pub mod RefCount
pub mod Manifest
pub mod Stats
pub mod Codec
pub mod Backend
pub mod Json
pub mod Persistence
pub mod Store
pub mod Postgres
pub mod Ffi
pub mod FsBackend
pub mod Example
