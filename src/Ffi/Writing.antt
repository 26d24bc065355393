-- ===== src/Ffi/Writing.antt =====
-- `chunkstore_read_to_writer` of core/src/ffi/store_ffi.rs against `chunkstore_read`.
use chunkstore.Base.{
  ◌≡◌, refl, ap, sym, subst, Bool, true, if◌then◌else◌, Option, none, some, ◌⊎◌, inl, inr, [], ◌∷◌,
  ◌++◌, length, append-nil,
}
use chunkstore.Base.Text.{Text, Bytes}
use chunkstore.Error.{Result, ok, err, hang}
use chunkstore.Exec.{Exec, pure, continue}
use chunkstore.Store
use chunkstore.Store.{Platform, ChunkStore, extend}
use chunkstore.Ffi.Types.{equals, chunkstore_ok, ChunkBackendCallbacks, ChunkstoreWriteCallback}
use chunkstore.Ffi.Utf8.{to_str}
use chunkstore.Ffi.Handle.{
  Libraries, Handle, FfiStore, callback, fs_store, callback_platform, fs_platform,
}
use chunkstore.Ffi.Handle
use chunkstore.Ffi.Reply.{Reply, nothing, content, done, answer}
use chunkstore.Ffi.Calls.{chunkstore_read, chunkstore_read_to_writer, write_target, with_str}

-- A write callback that appends what it is given to a buffer.
abbrev pub gather : ChunkstoreWriteCallback Bytes
gather buf out = (chunkstore_ok, out ++ buf)

gather-extend : (P : Platform) → write_target gather ≡ extend P
unfolding write_target
gather-extend P = λ i buf out. at buf out i
  where
    at : (buf out : Bytes) → write_target gather buf out ≡ (ok tt, out ++ buf)
    at [] out = rw append-nil refl
    at (c ∷ buf) out = refl

-- The reply of `chunkstore_read` that goes with the reply of a call that gathered some bytes.
abbrev pub as_read : Bytes → Result Reply → Result Reply
as_read out (ok r) = ok (if equals r.code chunkstore_ok then done (content out (length out)) else r)
as_read out (err e) = err e
as_read out hang = hang

as_read-answer :
    (given : Bool) (out : Bytes) (r : Result (Unit {0}))
    → answer given
        (λ bytes. ok (done (content bytes (length bytes))))
        (chunkstore.Error.◌>>=◌ r (λ _. ok out))
      ≡ as_read out (answer given (λ _. ok (done nothing)) r)
as_read-answer given out (ok _) = refl
as_read-answer given out (err e) = refl
as_read-answer given out hang = refl

-- What a run that gathers bytes gives when only they are wanted.
abbrev gathered : {S : Type 0} → Result (Unit {0}) × (Bytes × S) → Result Bytes × S
gathered (r, (out, s)) = (chunkstore.Error.◌>>=◌ r (λ _. ok out), s)

continue-pure :
    {S : Type 0} (r : Result (Unit {0})) (out : Bytes) (s : S)
    → continue r (λ _. pure out) s ≡ gathered (r, (out, s))
continue-pure (ok _) out s = refl
continue-pure (err e) out s = refl
continue-pure hang out s = refl

-- `read` is `read_to_writer` with a buffer.
store_read :
    (P : Platform) (f : Text) (s : ChunkStore P.backend.State)
    → Store.read P f s ≡ gathered (Store.read_to_writer P (write_target gather) f ([], s))
unfolding Store.read
store_read P f s =
    subst
      (λ (w : Bytes → Exec Bytes (Unit {0})).
        Store.read P f s ≡ gathered (Store.read_to_writer P w f ([], s)))
      (sym (gather-extend P)) (continue-pure _ _ _)

module _ {U : Type 0} (L : Libraries) (callbacks : ChunkBackendCallbacks U) where
  read-gathered :
      (f : Text) (h : Handle L callbacks)
      → Handle.read L callbacks f h
        ≡ gathered (Handle.read_to_writer L callbacks (write_target gather) f ([], h))
  unfolding Handle.read Handle.read_to_writer Handle.dispatch
  read-gathered f (callback s) =
      ap (λ r. (r.0, callback r.1)) (store_read (callback_platform L callbacks) f s)
  read-gathered f (fs_store root s) =
      ap (λ r. (r.0, fs_store root r.1)) (store_read (fs_platform L root) f s)

  -- Reading a file through a write callback that gathers what it is given is the same call as
  -- `chunkstore_read` with both out pointers: the same store, the same code and message, and where the
  -- file is read, the bytes gathered are those that `chunkstore_read` writes with their number. This
  -- holds for every handle and name, null included.
  pub chunkstore_read-eq-gathered :
      (id : Option Bytes) (given : Bool) (h : Option (Handle L callbacks))
      → let (r, (out, h')) = chunkstore_read_to_writer L callbacks id (some gather) given ([], h) in
        chunkstore_read L callbacks id true true given h ≡ (as_read out r, h')
  unfolding chunkstore_read chunkstore_read_to_writer
  chunkstore_read-eq-gathered id given none = refl
  chunkstore_read-eq-gathered none given (some s) = refl
  chunkstore_read-eq-gathered (some id) given (some s) = at (to_str id) refl
    where
      at :
          (q : Text ⊎ Text)
          → to_str id ≡ q
          → let (r, (out, h')) =
              chunkstore_read_to_writer L callbacks (some id) (some gather) given ([], some s) in
            chunkstore_read L callbacks (some id) true true given (some s) ≡ (as_read out r, h')
      at (inl e) read = rw (read, with_str, chunkstore_read_to_writer) refl
      at (inr f) read =
          rw (read, with_str, chunkstore_read_to_writer)
            (rw (read-gathered f s) (
              ap
                (λ a.
                  (a, some (Handle.read_to_writer L callbacks (write_target gather) f ([], s)).1.1))
                (as_read-answer given _ _)))
