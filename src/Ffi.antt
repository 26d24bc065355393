-- ===== src/Ffi.antt =====
-- core/src/ffi/: the C interface.
pub mod Utf8
pub mod Types
pub mod Callback
pub mod Handle
pub mod Reply
pub mod Calls
pub mod Replying
pub mod Contract
pub mod Streaming
pub mod CallbackLaws
pub mod Writing
