-- ===== src/Ffi/Contract.antt =====
-- What every function of core/src/ffi/store_ffi.rs that takes a handle promises of its reply.
use chunkstore.Base.{ℕ, refl, ◌≡◌, inl, inr, ◌⊎◌, Bool, ◌&&◌, Option, none, some, List, length}
use chunkstore.Base.Text.{Text, Bytes}
use chunkstore.Error.{ok}
use chunkstore.Exec.{Exec}
use chunkstore.Ffi.Types.{ℤ, ChunkBackendCallbacks, ChunkstoreWriteCallback, ReadAnswer}
use chunkstore.Ffi.Utf8.{to_str}
use chunkstore.Ffi.Handle.{Libraries, Handle}
use chunkstore.Ffi.Handle
use chunkstore.Ffi.Reply.{Reply, nothing, content, stats_reply, done, digests_reply}
use chunkstore.Ffi.Calls.{
  Call, on_handle, with_str, with_slice, ingest_impl, ingest_with_digests_impl, chunkstore_ingest,
  chunkstore_ingest_cdc, chunkstore_ingest_with_digests, chunkstore_ingest_fixed,
  chunkstore_ingest_cdc_with_digests, chunkstore_ingest_reader, chunkstore_ingest_path,
  chunkstore_read, chunkstore_read_to_writer, write_target, chunkstore_delete, chunkstore_stats,
  ingest_source, ingest_from,
}
use chunkstore.Ffi.Replying.{
  IsReply, answer-IsReply, done-IsReply, refused-IsReply, digests-IsReply, Next, sliced,
  on_handle-IsReply, with_str-IsReply, unless-IsReply, named-IsReply, guarded-IsReply,
  sliced-IsReply,
}

-- The calls that take a handle, with their arguments. A write callback changes a state of the
-- caller's, of type `V`.
pub data Request (V : Type 0) : Type 0 where
  ingest : Option Bytes → Option Bytes → ℕ → Bool → Request V
  ingest_cdc : Option Bytes → Option Bytes → ℕ → Bool → Request V
  ingest_with_digests : Option Bytes → Option Bytes → ℕ → Bool → Bool → Request V
  ingest_fixed : Option Bytes → Option Bytes → ℕ → ℕ → Bool → Bool → Request V
  ingest_cdc_with_digests : Option Bytes → Option Bytes → ℕ → Bool → Bool → Request V
  ingest_reader : Option Bytes → Option (List ReadAnswer) → ℕ → ℤ → Bool → Bool → Request V
  ingest_path : Option Bytes → Option Bytes → ℤ → Bool → Bool → Request V
  read : Option Bytes → Bool → Bool → Bool → Request V
  read_to_writer : Option Bytes → Option (ChunkstoreWriteCallback V) → Bool → Request V
  delete : Option Bytes → Bool → Request V
  stats : Bool → Bool → Request V

module _ {U : Type 0} (L : Libraries) (callbacks : ChunkBackendCallbacks U) where
  -- A call that leaves the caller's state alone.
  abbrev keeping_state :
      {V : Type 0} → Call L callbacks → Exec (V × Option (Handle L callbacks)) Reply
  keeping_state call (v, store) = let (r, store') = call store in (r, (v, store'))

  unfoldable pub run : {V : Type 0} → Request V → Exec (V × Option (Handle L callbacks)) Reply
  run (ingest id memory len given) =
      keeping_state (chunkstore_ingest L callbacks id memory len given)
  run (ingest_cdc id memory len given) =
      keeping_state (chunkstore_ingest_cdc L callbacks id memory len given)
  run (ingest_with_digests id memory len out given) =
      keeping_state (chunkstore_ingest_with_digests L callbacks id memory len out given)
  run (ingest_fixed id memory len n out given) =
      keeping_state (chunkstore_ingest_fixed L callbacks id memory len n out given)
  run (ingest_cdc_with_digests id memory len out given) =
      keeping_state (chunkstore_ingest_cdc_with_digests L callbacks id memory len out given)
  run (ingest_reader id answers n use_cdc out given) =
      keeping_state (chunkstore_ingest_reader L callbacks id answers n use_cdc out given)
  run (ingest_path id path use_cdc out given) =
      keeping_state (chunkstore_ingest_path L callbacks id path use_cdc out given)
  run (read id out_data out_len given) =
      keeping_state (chunkstore_read L callbacks id out_data out_len given)
  run (read_to_writer id write_cb given) = chunkstore_read_to_writer L callbacks id write_cb given
  run (delete id given) = keeping_state (chunkstore_delete L callbacks id given)
  run (stats out given) = keeping_state (chunkstore_stats L callbacks out given)

  impl-IsReply :
      (id memory : Option Bytes) (len : ℕ) (given : Bool)
      (f : Text → Bytes → Exec (Handle L callbacks) (List Text)) (h : Option (Handle L callbacks))
      → IsReply (ingest_impl L callbacks id memory len given f h).0
  unfolding ingest_impl
  impl-IsReply id memory len given f none = refused-IsReply
  impl-IsReply none memory len given f (some s) = refused-IsReply
  impl-IsReply (some id) memory len given f (some s) =
      sliced-IsReply L callbacks memory len given id (λ _. ok (done nothing)) f
        (λ _. done-IsReply nothing) s

  digests_impl-IsReply :
      (id memory : Option Bytes) (len : ℕ) (out given : Bool)
      (f : Text → Bytes → Exec (Handle L callbacks) (List Text)) (h : Option (Handle L callbacks))
      → IsReply (ingest_with_digests_impl L callbacks id memory len out given f h).0
  unfolding ingest_with_digests_impl
  digests_impl-IsReply id memory len out given f none = refused-IsReply
  digests_impl-IsReply none memory len out given f (some s) = refused-IsReply
  digests_impl-IsReply (some id) memory len out given f (some s) =
      unless-IsReply L callbacks out
        (with_slice L callbacks memory len
          (sliced L callbacks given id (digests_reply L.json given) f) s)
        s
        (sliced-IsReply L callbacks memory len given id (digests_reply L.json given) f
          (digests-IsReply L.json given) s)

  reader-IsReply :
      (id : Option Bytes) (answers : Option (List ReadAnswer)) (n : ℕ) (use_cdc : ℤ)
      (out given : Bool) (h : Option (Handle L callbacks))
      → IsReply (chunkstore_ingest_reader L callbacks id answers n use_cdc out given h).0
  unfolding chunkstore_ingest_reader
  reader-IsReply id answers n use_cdc out given none = refused-IsReply
  reader-IsReply none answers n use_cdc out given (some s) = refused-IsReply
  reader-IsReply (some id) none n use_cdc out given (some s) = refused-IsReply
  reader-IsReply (some id) (some answers) n use_cdc out given (some s) =
      guarded-IsReply L callbacks out given id (digests_reply L.json given)
        (λ f. ingest_source L callbacks f answers n use_cdc) s (digests-IsReply L.json given)

  path-IsReply :
      (id path : Option Bytes) (use_cdc : ℤ) (out given : Bool) (h : Option (Handle L callbacks))
      → IsReply (chunkstore_ingest_path L callbacks id path use_cdc out given h).0
  unfolding chunkstore_ingest_path
  path-IsReply id path use_cdc out given none = refused-IsReply
  path-IsReply none path use_cdc out given (some s) = refused-IsReply
  path-IsReply (some id) none use_cdc out given (some s) = refused-IsReply
  path-IsReply (some id) (some path) use_cdc out given (some s) =
      let next : Text → Next L callbacks = λ f. with_str L callbacks given path (λ p.
        on_handle L callbacks given (digests_reply L.json given)
          (ingest_from L callbacks f p use_cdc)) in
      unless-IsReply L callbacks out (with_str L callbacks given id next s) s (
        with_str-IsReply L callbacks given id next
          (λ f.
            named-IsReply L callbacks given path (digests_reply L.json given)
              (λ p. ingest_from L callbacks f p use_cdc) (digests-IsReply L.json given))
          s)

  read-IsReply :
      (id : Option Bytes) (out_data out_len given : Bool) (h : Option (Handle L callbacks))
      → IsReply (chunkstore_read L callbacks id out_data out_len given h).0
  unfolding chunkstore_read
  read-IsReply id out_data out_len given none = refused-IsReply
  read-IsReply none out_data out_len given (some s) = refused-IsReply
  read-IsReply (some id) out_data out_len given (some s) =
      guarded-IsReply L callbacks (out_data && out_len) given id
        (λ b. ok (done (content b (length b)))) (Handle.read L callbacks) s (λ b. inl (refl, refl))

  delete-IsReply :
      (id : Option Bytes) (given : Bool) (h : Option (Handle L callbacks))
      → IsReply (chunkstore_delete L callbacks id given h).0
  unfolding chunkstore_delete
  delete-IsReply id given none = refused-IsReply
  delete-IsReply none given (some s) = refused-IsReply
  delete-IsReply (some id) given (some s) =
      named-IsReply L callbacks given id (λ _. ok (done nothing)) (Handle.delete L callbacks)
        (λ _. done-IsReply nothing) s

  stats-IsReply :
      (out given : Bool) (h : Option (Handle L callbacks))
      → IsReply (chunkstore_stats L callbacks out given h).0
  unfolding chunkstore_stats
  stats-IsReply out given none = refused-IsReply
  stats-IsReply out given (some s) =
      unless-IsReply L callbacks out
        (on_handle L callbacks given (λ r. ok (stats_reply r)) (Handle.stats L callbacks) s) s
        (on_handle-IsReply L callbacks given (λ r. ok (stats_reply r)) (Handle.stats L callbacks)
          (λ r. inl (refl, refl)) s)

  writer-IsReply :
      {V : Type 0} (id : Option Bytes) (write_cb : Option (ChunkstoreWriteCallback V))
      (given : Bool) (v : V) (h : Option (Handle L callbacks))
      → IsReply (chunkstore_read_to_writer L callbacks id write_cb given (v, h)).0
  unfolding chunkstore_read_to_writer
  writer-IsReply id write_cb given v none = refused-IsReply
  writer-IsReply none write_cb given v (some s) = refused-IsReply
  writer-IsReply (some id) none given v (some s) = refused-IsReply
  writer-IsReply (some id) (some write_cb) given v (some s) = at (to_str id) refl
    where
      at :
          (q : Text ⊎ Text)
          → to_str id ≡ q
          → IsReply
              (chunkstore_read_to_writer L callbacks (some id) (some write_cb) given (v, some s)).0
      at (inl e) bad = rw (bad, chunkstore_read_to_writer) (inr (refl, refl))
      at (inr f) name =
          rw (name, chunkstore_read_to_writer)
            (answer-IsReply given (λ _. ok (done nothing))
              (Handle.read_to_writer L callbacks (write_target write_cb) f (v, s)).0
              (λ _. done-IsReply nothing))

  -- Whatever a call on a handle is given, null pointers and invalid UTF-8 included, if it comes back
  -- its code is CHUNKSTORE_OK and no error has been written, or its code is CHUNKSTORE_ERR and no
  -- result has been written through an out pointer. The calls are all those that take a handle, but
  -- the one that destroys it.
  pub run-IsReply :
      {V : Type 0} (q : Request V) (v : V) (h : Option (Handle L callbacks))
      → IsReply (run q (v, h)).0
  unfolding run chunkstore_ingest chunkstore_ingest_cdc chunkstore_ingest_with_digests
      chunkstore_ingest_fixed chunkstore_ingest_cdc_with_digests
  run-IsReply (ingest id memory len given) v h = impl-IsReply id memory len given _ h
  run-IsReply (ingest_cdc id memory len given) v h = impl-IsReply id memory len given _ h
  run-IsReply (ingest_with_digests id memory len out given) v h =
      digests_impl-IsReply id memory len out given _ h
  run-IsReply (ingest_fixed id memory len n out given) v h =
      digests_impl-IsReply id memory len out given _ h
  run-IsReply (ingest_cdc_with_digests id memory len out given) v h =
      digests_impl-IsReply id memory len out given _ h
  run-IsReply (ingest_reader id answers n use_cdc out given) v h =
      reader-IsReply id answers n use_cdc out given h
  run-IsReply (ingest_path id path use_cdc out given) v h = path-IsReply id path use_cdc out given h
  run-IsReply (read id out_data out_len given) v h = read-IsReply id out_data out_len given h
  run-IsReply (read_to_writer id write_cb given) v h = writer-IsReply id write_cb given v h
  run-IsReply (delete id given) v h = delete-IsReply id given h
  run-IsReply (stats out given) v h = stats-IsReply out given h
