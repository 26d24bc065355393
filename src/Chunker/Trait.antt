-- ===== src/Chunker/Trait.antt =====
-- core/src/chunker/mod.rs: the trait `Chunker`, and what a reader yields.
use mathlib.Core.Option
use chunkstore.Base.{List, [], ◌∷◌, ◌++◌, Option, none, some, is_empty, if◌then◌else◌}
use chunkstore.Base.Text.{Bytes, Text}
use chunkstore.Exec.{Exec}

-- A chunker's state and its two methods.
pub record Chunker : Type 1 where
  pub State : Type 0
  pub feed : Bytes → Exec State (List Bytes)
  pub finish : Exec State (List Bytes)

-- What `Read::read` returns, call by call: bytes, none of them at the end, or an error. After the
-- last event the reader is at its end.
pub data ReadEvent : Type 0 where
  bytes : Bytes → ReadEvent
  failed : Text → ReadEvent

-- The bytes that a reader yields before its end, where no read fails.
abbrev pub content : List ReadEvent → Option Bytes
content [] = some []
content (failed e ∷ reader) = none
content (bytes buf ∷ reader) =
    if is_empty buf then some [] else Option.map (λ rest. buf ++ rest) (content reader)
