-- ===== src/Backend.antt =====
-- The trait `ChunkBackend` of core/src/store/mod.rs: a key-value store for blobs and metadata. An
-- implementation is a state and five methods, each of which may fail.
pub mod Lawful
pub mod Memory
use chunkstore.Base.{Bool, Option, List}
use chunkstore.Base.Text.{Text, Bytes}
use chunkstore.Exec.{Exec}

pub record ChunkBackend : Type 1 where
  pub State : Type 0
  pub get : Text → Exec State (Option Bytes)
  pub put : Text → Bytes → Exec State (Unit {0})
  pub exists : Text → Exec State Bool
  pub delete : Text → Exec State (Unit {0})
  -- `Ok(None)` if the backend cannot list.
  pub list_keys : Text → Exec State (Option (List Text))
