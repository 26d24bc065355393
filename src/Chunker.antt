-- ===== src/Chunker.antt =====
-- core/src/chunker/mod.rs: the loops that drive a chunker from a reader.
pub mod Trait
pub mod Fixed
pub mod Cdc
pub mod Drive
use chunkstore.Base.{Bool, true, false, if◌then◌else◌, List, [], ◌∷◌, ◌++◌, is_empty}
use chunkstore.Base.Text.{Bytes, Text}
use chunkstore.Error.{Result, ok, err, hang, io_error}
use chunkstore.Chunker.Trait.{Chunker, ReadEvent, bytes, failed}
use chunkstore.Exec.{Exec, continue, ◌>>=◌, ◌>>◌, each}

module _ {ℓ} (C : Chunker) {S : Type ℓ} (on_chunk : Bytes → Exec S (Unit {0})) where
  -- A method of the chunker, in the state that the loop carries.
  abbrev pub on_chunker : Exec C.State (List Bytes) → Exec (C.State × S) (List Bytes)
  on_chunker m (c, s) = let (r, c') = m c in (r, (c', s))

  -- `for chunk in chunks { on_chunk(chunk)?; }`
  abbrev pub hand_on : List Bytes → Exec (C.State × S) (Unit {0})
  hand_on chunks (c, s) = let (r, s') = each on_chunk chunks s in (r, (c, s'))

  -- The loop's tail, after `break`.
  abbrev pub flush : Exec (C.State × S) (Unit {0})
  flush = do chunks ← on_chunker C.finish; hand_on chunks

  unfoldable pub for_each_chunk : List ReadEvent → Exec (C.State × S) (Unit {0})
  for_each_chunk [] = flush
  for_each_chunk (failed e ∷ reader) = λ s. (err (io_error e), s)
  for_each_chunk (bytes buf ∷ reader) =
      let rest = (do chunks ← on_chunker (C.feed buf); hand_on chunks; for_each_chunk reader) in
      if is_empty buf then flush else rest

-- `chunks.push(chunk)`
abbrev pub push : Bytes → Exec (List Bytes) (Unit {0})
push chunk chunks = (ok tt, chunks ++ chunk ∷ [])

unfoldable pub chunk_reader : (C : Chunker) → List ReadEvent → Exec C.State (List Bytes)
unfolding for_each_chunk
chunk_reader C reader c =
    let (r, (c', chunks)) = for_each_chunk C push reader (c, []) in
    continue r (λ _ s. (ok chunks, s)) c'
