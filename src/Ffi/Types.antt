-- ===== src/Ffi/Types.antt =====
-- core/src/ffi/types.rs: codes, and the callbacks that the caller of the C interface provides. A
-- callback is a function of the caller's state, which its `userdata` points to; a pointer that may be
-- null is an Option.
use chunkstore.Base.{ℕ, ◌==◌, Bool, false, not, if◌then◌else◌, Option, ltb, take}
use chunkstore.Base.Text.{Text, Bytes, codes}
use chunkstore.Chunker.Trait.{ReadEvent, bytes, failed}

-- `c_int`
pub data ℤ : Type 0 where
  pos : ℕ → ℤ
  negsuc : ℕ → ℤ

abbrev pub equals : ℤ → ℤ → Bool
equals (pos m) (pos n) = m == n
equals (pos m) (negsuc n) = false
equals (negsuc m) (pos n) = false
equals (negsuc m) (negsuc n) = m == n

abbrev pub chunkstore_ok : ℤ
chunkstore_ok = pos 0

abbrev pub chunkstore_err : ℤ
chunkstore_err = negsuc 0

-- What a `get` callback leaves: its code, and what it wrote to `out_data`, which starts as null and
-- otherwise points to these bytes, and to `out_len`, which starts as 0.
pub record Got : Type 0 where
  pub rc : ℤ
  pub out_data : Option Bytes
  pub out_len : ℕ

-- `ChunkBackendCallbacks`, without its `userdata`: a callback may be missing.
pub record ChunkBackendCallbacks (U : Type 0) : Type 0 where
  pub get : Option (Text → U → Got × U)
  pub put : Option (Text → Bytes → U → ℤ × U)
  pub exists : Option (Text → U → ℤ × U)
  pub delete : Option (Text → U → ℤ × U)

-- `ChunkstoreStats`, without the percentage, which is floating point.
pub record ChunkstoreStats : Type 0 where
  pub total_bytes : ℕ
  pub stored_bytes : ℕ
  pub gc_chunks : ℕ

-- `ChunkstoreWriteCallback`
abbrev pub ChunkstoreWriteCallback : Type 0 → Type 0
ChunkstoreWriteCallback V = Bytes → V → ℤ × V

-- What one call of a `ChunkstoreReadCallback` leaves: its code, the buffer, and `out_len`, which starts
-- as 0.
pub record ReadAnswer : Type 0 where
  pub rc : ℤ
  pub buf : Bytes
  pub out_len : ℕ

-- `[0u8; 64 * 1024]` of core/src/chunker/mod.rs, the buffer that is read into.
abbrev pub read_buffer : ℕ
read_buffer = 65536

-- `FfiReadSource::read`, on a buffer that is not empty.
unfoldable pub read_source : ReadAnswer → ReadEvent
read_source a =
    if not (equals a.rc chunkstore_ok)
    then failed (codes "chunkstore read callback failed")
    else if ltb read_buffer a.out_len
    then failed (codes "chunkstore read callback overflow")
    else bytes (take a.out_len a.buf)
