-- ===== src/Store.antt =====
-- core/src/store/mod.rs: `ChunkStore`, in the build without the `postgres` feature.
mod Types
pub mod World
pub mod Invariant
pub mod Reading
pub mod Frames
pub mod Blobs
pub mod Storing
pub mod Releasing
pub mod Tidy
pub mod Session
pub mod Commit
mod Digest
mod Chunks
mod Files
mod Open
mod Check
pub mod Ingest
pub mod Contract
pub mod Runs
pub mod Names
pub mod Scan
pub mod Fsck
pub mod Rebuild
pub mod Reopen
pub mod Overtaking
pub mod Legacy
pub mod Statistics
pub mod RoundTrip
pub use Types.*
unfoldable pub use Digest.*
unfoldable pub use Chunks.*
unfoldable pub use Files.*
unfoldable pub use Open.*
unfoldable pub use Check.*
