-- ===== src/Example.antt =====
-- A concrete platform, at which the theorems about a store are applied: the in-memory backend of the
-- sources, and stand-ins for the libraries that meet their laws.
pub mod Encoding
pub mod Hash
pub mod Platform
pub mod Stores
pub mod Tables
mod StoreTests
mod SharedTests
mod FfiTests
mod DiskTests
pub mod Disk
pub mod Sealed
mod PartTests
