-- ===== src/Chunker/Fixed.antt =====
-- core/src/chunker/fixed.rs
pub mod Split
pub mod Feed
use chunkstore.Base.{
  ℕ, zero, suc, ◌*◌, Bool, true, false, if◌then◌else◌, leb, List, [], ◌∷◌, ◌++◌, length, take, drop,
  is_empty,
}
use chunkstore.Base.Text.{Bytes}
use chunkstore.Error.{Result, ok, err, hang}
use chunkstore.Exec.{Exec}
use chunkstore.Chunker.Trait.{Chunker}

pub record FixedChunker : Type 0 where
  pub chunk_size : ℕ
  pub buffer : Bytes

unfoldable pub new : ℕ → FixedChunker
new chunk_size = record { chunk_size = chunk_size; buffer = [] }

abbrev pub default_chunk_size : ℕ
default_chunk_size = 4 * 1024 * 1024

-- `while self.buffer.len() >= self.chunk_size { out.push(self.buffer.drain(..self.chunk_size)) }`
-- `hang` means that the fuel ran out.
unfoldable pub drain : ℕ → ℕ → Bytes → List Bytes → Result (List Bytes × Bytes)
drain zero chunk_size buffer out = hang
drain (suc fuel) chunk_size buffer out =
    let rest =
      drain fuel chunk_size (drop chunk_size buffer) (out ++ take chunk_size buffer ∷ []) in
    if leb chunk_size (length buffer) then rest else ok (out, buffer)

abbrev drained : FixedChunker → Result (List Bytes × Bytes) → Result (List Bytes) × FixedChunker
drained c (ok (out, buffer)) = (ok out, record c { buffer = buffer })
drained c (err e) = (err e, c)
drained c hang = (hang, c)

-- A chunk of at least one byte leaves the buffer each round: one round more than it has bytes
-- is enough.
unfoldable pub feed : Bytes → Exec FixedChunker (List Bytes)
unfolding drain
feed content c =
    let buffer = c.buffer ++ content in
    drained (record c { buffer = buffer }) (drain (suc (length buffer)) c.chunk_size buffer [])

unfoldable pub finish : Exec FixedChunker (List Bytes)
finish c = if is_empty c.buffer then (ok [], c) else (ok (c.buffer ∷ []), record c { buffer = [] })

abbrev pub fixed_chunker : Chunker
fixed_chunker = record { State = FixedChunker; feed = feed; finish = finish }
