-- ===== src/Postgres.antt =====
-- core/src/store/postgres_meta.rs: manifests and reference counts in a Postgres database. The lock
-- on the client is taken for one call at a time and no call panics, so it is never poisoned.
pub mod Server
pub mod Trim
pub mod Rows
pub mod Laws
pub mod Counting
pub mod Atomic
pub mod Committed
pub mod Effects
pub mod Succeeding
pub mod Shared
pub mod Blobs
pub mod Serving
pub mod Ingest
pub mod Delete
pub mod Answering
pub mod Nameless
pub mod Streams
pub mod Trimmed
pub mod Scan
