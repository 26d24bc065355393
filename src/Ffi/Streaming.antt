-- ===== src/Ffi/Streaming.antt =====
-- Streaming through the C interface of core/src/ffi/store_ffi.rs against handing a file over whole.
use chunkstore.Base.{
  ℕ, suc, ◌≡◌, refl, ap, Bool, true, false, ◌==◌, if◌then◌else◌, Option, none, some, ◌⊎◌, inl, inr,
  List, [], ◌∷◌, map, length, take, arith,
}
use chunkstore.Base.Text.{Text, Bytes}
use chunkstore.Exec.{Exec}
use chunkstore.Chunker.Fixed
use chunkstore.Chunker.Trait.{ReadEvent}
use chunkstore.Chunker.Trait
use chunkstore.Chunker.Cdc.Tiles.{IsFastCdc}
use chunkstore.Store
use chunkstore.Store.Ingest.{ingest_reader_fixed-eq-ingest_fixed, ingest_reader_cdc-eq-ingest_cdc}
use chunkstore.Ffi.Types.{ℤ, pos, equals, ChunkBackendCallbacks, ReadAnswer, read_source}
use chunkstore.Ffi.Utf8.{to_str}
use chunkstore.Ffi.Handle.{
  Libraries, Handle, FfiStore, callback, fs_store, callback_platform, fs_platform,
}
use chunkstore.Ffi.Handle
use chunkstore.Ffi.Reply.{digests_reply, answer}
use chunkstore.Ffi.Calls.{
  ingest_source, ingest_with_digests_impl, chunkstore_ingest_reader, chunkstore_ingest_fixed,
  chunkstore_ingest_with_digests, chunkstore_ingest_cdc_with_digests, with_str, with_slice,
  on_handle,
}

pub take-length : (l : Bytes) → take (length l) l ≡ l
take-length [] = refl
take-length (x ∷ l) = ap (λ t. x ∷ t) (take-length l)

-- The slice of a buffer's whole length is the buffer.
pub slice_whole : (l : Bytes) → (if length l == 0 then [] else take (length l) l) ≡ l
slice_whole [] = refl
slice_whole (x ∷ l) =
    let no : (suc (length l) == 0) ≡ false = ground arith in rw no (take-length (x ∷ l))

module _ {U : Type 0} (L : Libraries) (callbacks : ChunkBackendCallbacks U) where
  module _ (f : Text) (reader : List ReadEvent) (data' : Bytes)
      (yields : Trait.content reader ≡ some data') where
    fixed_same :
        (n : ℕ) (h : Handle L callbacks)
        → Handle.ingest_reader_fixed L callbacks f reader n h
          ≡ Handle.ingest_fixed L callbacks f data' n h
    unfolding Handle.ingest_reader_fixed Handle.ingest_fixed Handle.dispatch
    fixed_same n (callback s) =
        ap (λ r. (r.0, callback r.1))
          (ingest_reader_fixed-eq-ingest_fixed (callback_platform L callbacks) f reader data' n s
            yields)
    fixed_same n (fs_store root s) =
        ap (λ r. (r.0, fs_store root r.1))
          (ingest_reader_fixed-eq-ingest_fixed (fs_platform L root) f reader data' n s yields)

    cdc_same :
        (h : Handle L callbacks)
        → IsFastCdc L.fast_cdc
        → Handle.ingest_reader_cdc L callbacks f reader h ≡ Handle.ingest_cdc L callbacks f data' h
    unfolding Handle.ingest_reader_cdc Handle.ingest_cdc Handle.dispatch
    cdc_same (callback s) law =
        ap (λ r. (r.0, callback r.1))
          (ingest_reader_cdc-eq-ingest_cdc (callback_platform L callbacks) law f reader data' s
            yields)
    cdc_same (fs_store root s) law =
        ap (λ r. (r.0, fs_store root r.1))
          (ingest_reader_cdc-eq-ingest_cdc (fs_platform L root) law f reader data' s yields)

  -- Two operations that do the same on the named file give the same reply and the same store.
  named_same :
      (given : Bool) (r : Text ⊎ Text) (id : Bytes) (s : Handle L callbacks)
      (op op' : Text → Exec (Handle L callbacks) (List Text))
      → to_str id ≡ r
      → ((f : Text) → op f s ≡ op' f s)
      → with_str L callbacks given id
          (λ f. on_handle L callbacks given (digests_reply L.json given) (op f))
          s
        ≡ with_str L callbacks given id
            (λ f. on_handle L callbacks given (digests_reply L.json given) (op' f))
            s
  unfolding with_str
  named_same given (inl e) id s op op' read h = rw (read, with_str) refl
  named_same given (inr f) id s op op' read h =
      rw (read, with_str)
        (ap (λ x. (answer given (digests_reply L.json given) x.0, some x.1)) (h f))

  streamed :
      (id : Option Bytes) (answers : List ReadAnswer) (data' : Bytes) (n : ℕ) (use_cdc : ℤ)
      (out given : Bool) (f : Text → Bytes → Exec (Handle L callbacks) (List Text))
      (h : Option (Handle L callbacks))
      → ((file_id : Text) (s : Handle L callbacks)
          → ingest_source L callbacks file_id answers n use_cdc s ≡ f file_id data' s)
      → chunkstore_ingest_reader L callbacks id (some answers) n use_cdc out given h
        ≡ ingest_with_digests_impl L callbacks id (some data') (length data') out given f h
  unfolding chunkstore_ingest_reader ingest_with_digests_impl with_slice
  streamed id answers data' n use_cdc out given f none same = refl
  streamed none answers data' n use_cdc out given f (some s) same = refl
  streamed (some id) answers data' n use_cdc false given f (some s) same = refl
  streamed (some id) answers data' n use_cdc true given f (some s) same = rw slice_whole (
      named_same given (to_str id) id s (λ i. ingest_source L callbacks i answers n use_cdc)
        (λ i. f i data') refl (λ i. same i s))

  -- Where the read callback yields some content without an error, `chunkstore_ingest_reader` is the
  -- same call, reply and store, as handing the content over whole: to `chunkstore_ingest_fixed` with
  -- the same chunk size if that is positive, to `chunkstore_ingest_with_digests` if it is 0, and to
  -- `chunkstore_ingest_cdc_with_digests` if `use_cdc` is not 0, whatever the size. The cut points of
  -- the library follow one another from end to end.
  pub chunkstore_ingest_reader-eq-whole :
      (id : Option Bytes) (answers : List ReadAnswer) (data' : Bytes) (n : ℕ) (z : ℤ)
      (out given : Bool) (h : Option (Handle L callbacks))
      → Trait.content (map read_source answers) ≡ some data'
      → IsFastCdc L.fast_cdc
      → equals z (pos 0) ≡ false
      → (chunkstore_ingest_reader L callbacks id (some answers) (suc n) (pos 0) out given h
          ≡ chunkstore_ingest_fixed L callbacks id (some data') (length data') (suc n) out given h)
        × (chunkstore_ingest_reader L callbacks id (some answers) 0 (pos 0) out given h
            ≡ chunkstore_ingest_with_digests L callbacks id (some data') (length data') out given h)
        × (chunkstore_ingest_reader L callbacks id (some answers) n z out given h
            ≡ chunkstore_ingest_cdc_with_digests L callbacks id
                (some data')
                (length data')
                out
                given
                h)
  unfolding chunkstore_ingest_fixed chunkstore_ingest_with_digests
      chunkstore_ingest_cdc_with_digests ingest_source Handle.ingest Store.ingest
      Handle.ingest_fixed
  chunkstore_ingest_reader-eq-whole id answers data' n z out given h yields law cdc =
      let positive : (suc n == 0) ≡ false = ground arith in
      (
        streamed id answers data' (suc n) (pos 0) out given _ h
            (λ f s. rw positive (fixed_same f (map read_source answers) data' yields (suc n) s)),
        streamed id answers data' 0 (pos 0) out given _ h
            (λ f s. fixed_same f (map read_source answers) data' yields Fixed.default_chunk_size s),
        streamed id answers data' n z out given _ h
            (λ f s. rw cdc (cdc_same f (map read_source answers) data' yields s law)),
      )
