-- ===== src/FsBackend.antt =====
-- core/src/store/fs_backend.rs: keys as paths, and the backend on files.
pub mod Key
pub mod Paths
pub mod System
pub mod Files
pub mod Laws
pub mod Atomic
pub mod Replacing
pub mod Puts
pub mod Deletes
pub mod Listing
