-- ===== src/Ffi/Calls.antt =====
-- The functions of core/src/ffi/store_ffi.rs that C programs call. A handle that is not null points to
-- a live store; the other arguments are null or point to the bytes given. Freeing memory has no
-- counterpart.
use chunkstore.Base.{
  ℕ, zero, suc, inl, inr, Bool, not, ◌&&◌, ◌==◌, ltb, if◌then◌else◌, Option, none, some, List, [],
  ◌∷◌, map, take, length, is_empty,
}
use chunkstore.Base.Text.{Text, Bytes, codes}
use chunkstore.Error.{Result, ok, err, hang, io_error}
use chunkstore.Exec.{Exec}
use chunkstore.FsBackend.Key.{components}
use chunkstore.FsBackend.System.{FilePath}
use chunkstore.FsBackend.Files.{Disk}
use chunkstore.FsBackend.Files as FsFiles
use chunkstore.Store.{open_store}
use chunkstore.Chunker.Fixed
use chunkstore.Ffi.Types.{
  ℤ, pos, equals, chunkstore_ok, ChunkBackendCallbacks, ChunkstoreWriteCallback, ReadAnswer,
  read_source,
}
use chunkstore.Ffi.Utf8.{to_str}
use chunkstore.Ffi.Handle.{
  Libraries, FfiStore, callback, fs_store, Handle, callback_platform, fs_platform,
}
use chunkstore.Ffi.Handle
use chunkstore.Ffi.Reply.{
  Reply, nothing, content, refused, done, error_reply, answer, digests_reply, stats_reply,
}

-- `write_all` on `FfiWriteTarget`: no call for no bytes, else one.
unfoldable pub write_target : {V : Type 0} → ChunkstoreWriteCallback V → Bytes → Exec V (Unit {0})
write_target write_cb buf v =
    let (rc, v') = write_cb buf v in
    if is_empty buf
    then (ok tt, v)
    else if equals rc chunkstore_ok
    then (ok tt, v')
    else (err (io_error (codes "chunkstore write callback failed")), v')

-- `vec![0; len]`
abbrev zeros : ℕ → Bytes
zeros zero = []
zeros (suc n) = 0 ∷ zeros n

unfoldable pub chunkstore_bytes_alloc : ℕ → Option Bytes
chunkstore_bytes_alloc len = if len == 0 then none else some (zeros len)

-- `ChunkStore::open`, as a handle or null.
abbrev pub handle_of : {S A B : Type 0} → (A → B) → Result A × S → Result (Option B) × S
handle_of inner (ok store, s) = (ok (some (inner store)), s)
handle_of inner (err e, s) = (ok none, s)
handle_of inner (hang, s) = (hang, s)

module _ {U : Type 0} (L : Libraries) (callbacks : ChunkBackendCallbacks U) where
  abbrev Store : Type 0
  Store = Handle L callbacks

  -- A call on a handle, which may be null.
  abbrev pub Call : Type 0
  Call = Exec (Option Store) Reply

  -- The callbacks are those of the module, unless null is passed.
  unfoldable pub chunkstore_create : Bool → Exec U (Option Store)
  chunkstore_create given u =
      if not given
      then (ok none, u)
      else handle_of callback (open_store (callback_platform L callbacks) u)

  -- `FsBackend::new`, then `ChunkStore::open`.
  abbrev open_at : FilePath → Exec (Disk L.fs.State) (Option Store)
  open_at path disk =
      let (r, disk') = FsFiles.new L.fs path disk in
      elim r [
        | ok root ↦ handle_of (fs_store root) (open_store (fs_platform L root) disk')
        | err e ↦ (ok none, disk')
        | hang ↦ (hang, disk')
      ]

  unfoldable pub chunkstore_open_fs : Option Bytes → Exec (Disk L.fs.State) (Option Store)
  chunkstore_open_fs none disk = (ok none, disk)
  chunkstore_open_fs (some root) disk = elim (to_str root) [
    | inl e ↦ (ok none, disk)
    | inr path ↦ open_at (components path) disk
  ]

  -- The handle is gone.
  unfoldable pub chunkstore_destroy : Option Store → Option Store
  chunkstore_destroy store = none

  -- An operation of the store, and the reply for its result.
  abbrev pub on_handle :
      {A : Type 0} → Bool → (A → Result Reply) → Exec Store A → Store → Result Reply × Option Store
  on_handle given next op store = let (r, store') = op store in (answer given next r, some store')

  -- `CStr::from_ptr(file_id).to_str()`, or its error as the reply.
  unfoldable pub with_str :
      Bool
      → Bytes
      → (Text → Store → Result Reply × Option Store)
      → Store
      → Result Reply × Option Store
  with_str given bytes next store = elim (to_str bytes) [
    | inl e ↦ (ok (error_reply given e), some store)
    | inr text ↦ next text store
  ]

  -- The slice of `len` bytes, after `if len > 0 && data.is_null()`.
  unfoldable pub with_slice :
      Option Bytes
      → ℕ
      → (Bytes → Store → Result Reply × Option Store)
      → Store
      → Result Reply × Option Store
  with_slice none len next store = if ltb 0 len then (ok refused, some store) else next [] store
  with_slice (some memory) len next store = next (if len == 0 then [] else take len memory) store

  unfoldable pub ingest_impl :
      Option Bytes → Option Bytes → ℕ → Bool → (Text → Bytes → Exec Store (List Text)) → Call
  unfolding with_str with_slice
  ingest_impl file_id memory len given f none = (ok refused, none)
  ingest_impl none memory len given f (some store) = (ok refused, some store)
  ingest_impl (some id) memory len given f (some store) =
      with_slice memory len
        (λ slice.
          with_str given id (λ file_id. on_handle given (λ _. ok (done nothing)) (f file_id slice)))
        store

  -- `out_digests_json` may be null, which is an error.
  unfoldable pub ingest_with_digests_impl :
      Option Bytes → Option Bytes → ℕ → Bool → Bool → (Text → Bytes → Exec Store (List Text)) → Call
  unfolding with_str with_slice digests_reply
  ingest_with_digests_impl file_id memory len out given f none = (ok refused, none)
  ingest_with_digests_impl none memory len out given f (some store) = (ok refused, some store)
  ingest_with_digests_impl (some id) memory len out given f (some store) =
      if not out
      then (ok refused, some store)
      else with_slice memory len
          (λ slice.
            with_str given id
              (λ file_id. on_handle given (digests_reply L.json given) (f file_id slice)))
          store

  unfoldable pub chunkstore_ingest : Option Bytes → Option Bytes → ℕ → Bool → Call
  unfolding ingest_impl
  chunkstore_ingest file_id memory len given =
      ingest_impl file_id memory len given (Handle.ingest L callbacks)

  unfoldable pub chunkstore_ingest_cdc : Option Bytes → Option Bytes → ℕ → Bool → Call
  unfolding ingest_impl
  chunkstore_ingest_cdc file_id memory len given =
      ingest_impl file_id memory len given (Handle.ingest_cdc L callbacks)

  unfoldable pub chunkstore_ingest_with_digests :
      Option Bytes → Option Bytes → ℕ → Bool → Bool → Call
  unfolding ingest_with_digests_impl
  chunkstore_ingest_with_digests file_id memory len out given =
      ingest_with_digests_impl file_id memory len out given (Handle.ingest L callbacks)

  unfoldable pub chunkstore_ingest_fixed : Option Bytes → Option Bytes → ℕ → ℕ → Bool → Bool → Call
  unfolding ingest_with_digests_impl
  chunkstore_ingest_fixed file_id memory len chunk_size out given =
      ingest_with_digests_impl file_id memory len out given
        (λ id slice. Handle.ingest_fixed L callbacks id slice chunk_size)

  unfoldable pub chunkstore_ingest_cdc_with_digests :
      Option Bytes → Option Bytes → ℕ → Bool → Bool → Call
  unfolding ingest_with_digests_impl
  chunkstore_ingest_cdc_with_digests file_id memory len out given =
      ingest_with_digests_impl file_id memory len out given (Handle.ingest_cdc L callbacks)

  -- The choice of the chunker in `chunkstore_ingest_reader`.
  unfoldable pub ingest_source : Text → List ReadAnswer → ℕ → ℤ → Exec Store (List Text)
  ingest_source file_id answers chunk_size use_cdc =
      let reader = map read_source answers in
      if not (equals use_cdc (pos 0))
      then Handle.ingest_reader_cdc L callbacks file_id reader
      else Handle.ingest_reader_fixed L callbacks file_id reader
          (if chunk_size == 0 then Fixed.default_chunk_size else chunk_size)

  -- The read callback is what it answers, call by call, or null.
  unfoldable pub chunkstore_ingest_reader :
      Option Bytes → Option (List ReadAnswer) → ℕ → ℤ → Bool → Bool → Call
  unfolding ingest_source with_str digests_reply
  chunkstore_ingest_reader file_id read_cb chunk_size use_cdc out given none = (ok refused, none)
  chunkstore_ingest_reader none read_cb chunk_size use_cdc out given (some store) =
      (ok refused, some store)
  chunkstore_ingest_reader (some id) none chunk_size use_cdc out given (some store) =
      (ok refused, some store)
  chunkstore_ingest_reader (some id) (some answers) chunk_size use_cdc out given (some store) =
      if not out
      then (ok refused, some store)
      else with_str given id
          (λ file_id.
            on_handle given (digests_reply L.json given)
              (ingest_source file_id answers chunk_size use_cdc))
          store

  -- The choice of the chunker in `chunkstore_ingest_path`.
  unfoldable pub ingest_from : Text → Text → ℤ → Exec Store (List Text)
  ingest_from file_id path use_cdc =
      if not (equals use_cdc (pos 0))
      then Handle.ingest_path_cdc L callbacks file_id path
      else Handle.ingest_path L callbacks file_id path

  unfoldable pub chunkstore_ingest_path : Option Bytes → Option Bytes → ℤ → Bool → Bool → Call
  unfolding ingest_from with_str digests_reply
  chunkstore_ingest_path file_id path use_cdc out given none = (ok refused, none)
  chunkstore_ingest_path none path use_cdc out given (some store) = (ok refused, some store)
  chunkstore_ingest_path (some id) none use_cdc out given (some store) = (ok refused, some store)
  chunkstore_ingest_path (some id) (some path) use_cdc out given (some store) =
      if not out
      then (ok refused, some store)
      else with_str given id
          (λ file_id. with_str given path (λ path.
            on_handle given (digests_reply L.json given) (ingest_from file_id path use_cdc)))
          store

  -- Both `out_data` and `out_len` have to be given.
  unfoldable pub chunkstore_read : Option Bytes → Bool → Bool → Bool → Call
  unfolding with_str
  chunkstore_read file_id out_data out_len given none = (ok refused, none)
  chunkstore_read none out_data out_len given (some store) = (ok refused, some store)
  chunkstore_read (some id) out_data out_len given (some store) =
      if not (out_data && out_len)
      then (ok refused, some store)
      else with_str given id
          (λ file_id.
            on_handle given (λ bytes. ok (done (content bytes (length bytes))))
              (Handle.read L callbacks file_id))
          store

  unfoldable pub chunkstore_delete : Option Bytes → Bool → Call
  unfolding with_str
  chunkstore_delete file_id given none = (ok refused, none)
  chunkstore_delete none given (some store) = (ok refused, some store)
  chunkstore_delete (some id) given (some store) =
      with_str given id
        (λ file_id. on_handle given (λ _. ok (done nothing)) (Handle.delete L callbacks file_id))
        store

  unfoldable pub chunkstore_stats : Bool → Bool → Call
  chunkstore_stats out given none = (ok refused, none)
  chunkstore_stats out given (some store) =
      if not out
      then (ok refused, some store)
      else on_handle given (λ s. ok (stats_reply s)) (Handle.stats L callbacks) store

  -- The write callback changes the caller's state, beside the handle.
  unfoldable pub chunkstore_read_to_writer :
      {V : Type 0}
      → Option Bytes
      → Option (ChunkstoreWriteCallback V)
      → Bool
      → Exec (V × Option Store) Reply
  chunkstore_read_to_writer file_id write_cb given (v, none) = (ok refused, (v, none))
  chunkstore_read_to_writer none write_cb given (v, some store) = (ok refused, (v, some store))
  chunkstore_read_to_writer (some id) none given (v, some store) = (ok refused, (v, some store))
  chunkstore_read_to_writer (some id) (some write_cb) given (v, some store) = elim (to_str id) [
    | inl e ↦ (ok (error_reply given e), (v, some store))
    | inr file_id ↦
        let (r, (v', store')) =
          Handle.read_to_writer L callbacks (write_target write_cb) file_id (v, store) in
        (answer given (λ _. ok (done nothing)) r, (v', some store'))
  ]
