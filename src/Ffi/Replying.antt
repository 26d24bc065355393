-- ===== src/Ffi/Replying.antt =====
-- The replies that the helpers of core/src/ffi/store_ffi.rs make.
use chunkstore.Base.{
  ℕ, ◌≡◌, refl, ◌⊎◌, inl, inr, Bool, true, false, Bool-cases, not, ltb, if◌then◌else◌, Option, none,
  some, List,
}
use chunkstore.Base.Text.{Text, Bytes}
use chunkstore.Error.{Result, ok, err, hang}
use chunkstore.Exec.{Exec}
use chunkstore.Json.{Json}
use chunkstore.Ffi.Types.{chunkstore_ok, chunkstore_err, ChunkBackendCallbacks}
use chunkstore.Ffi.Utf8.{to_str}
use chunkstore.Ffi.Handle.{Libraries, Handle}
use chunkstore.Ffi.Reply.{
  Reply, Output, nothing, refused, done, error_reply, answer, digests_reply,
  digests_to_json_cstring,
}
use chunkstore.Ffi.Calls.{on_handle, with_str, with_slice}

-- A call that comes back has one of the two codes. With CHUNKSTORE_OK it has written no error, with
-- CHUNKSTORE_ERR no result through an out pointer.
abbrev pub IsReply : Result Reply → Type 0
IsReply (ok r) =
    ((r.code ≡ chunkstore_ok) × (r.out_err ≡ none))
    ⊎ ((r.code ≡ chunkstore_err) × (r.output ≡ nothing))
IsReply (err e) = ⊥
IsReply hang = Unit

pub done-IsReply : (output : Output) → IsReply (ok (done output))
done-IsReply output = inl (refl, refl)

pub refused-IsReply : IsReply (ok refused)
refused-IsReply = inr (refl, refl)

error-IsReply : (given : Bool) (m : Text) → IsReply (ok (error_reply given m))
error-IsReply given m = inr (refl, refl)

pub answer-IsReply :
    {A : Type 0} (given : Bool) (next : A → Result Reply) (r : Result A)
    → ((a : A) → IsReply (next a))
    → IsReply (answer given next r)
answer-IsReply given next (ok a) h = h a
answer-IsReply given next (err e) h = inr (refl, refl)
answer-IsReply given next hang h = tt

pub digests-IsReply :
    (J : Json) (given : Bool) (ds : List Text) → IsReply (digests_reply J given ds)
unfolding digests_reply
digests-IsReply J given ds =
    answer-IsReply given _ (digests_to_json_cstring J ds) (λ json. inl (refl, refl))

module _ {U : Type 0} (L : Libraries) (callbacks : ChunkBackendCallbacks U) where
  abbrev pub Next : Type 0
  Next = Handle L callbacks → Result Reply × Option (Handle L callbacks)

  abbrev pub Good : Next → Type 0
  Good next = (h : Handle L callbacks) → IsReply (next h).0

  pub on_handle-IsReply :
      {A : Type 0} (given : Bool) (next : A → Result Reply) (op : Exec (Handle L callbacks) A)
      → ((a : A) → IsReply (next a))
      → Good (on_handle L callbacks given next op)
  on_handle-IsReply given next op h s = answer-IsReply given next (op s).0 h

  pub with_str-IsReply :
      (given : Bool) (bytes : Bytes) (next : Text → Next)
      → ((text : Text) → Good (next text))
      → Good (with_str L callbacks given bytes next)
  unfolding with_str
  with_str-IsReply given bytes next h s = at (to_str bytes)
    where
      at :
          (r : Text ⊎ Text)
          → IsReply
              (elim r as (λ _. Result Reply × Option (Handle L callbacks)) [
                | inl e ↦ (ok (error_reply given e), some s)
                | inr text ↦ next text s
              ]).0
      at (inl e) = error-IsReply given e
      at (inr text) = h text s

  with_slice-IsReply :
      (memory : Option Bytes) (len : ℕ) (next : Bytes → Next)
      → ((slice : Bytes) → Good (next slice))
      → Good (with_slice L callbacks memory len next)
  unfolding with_slice
  with_slice-IsReply none len next h s = elim (Bool-cases (ltb 0 len)) [
    | inl e ↦ rw e refused-IsReply
    | inr e ↦ rw e (h _ s)
  ]
  with_slice-IsReply (some memory) len next h s = h _ s

  pub unless-IsReply :
      (out : Bool) (r : Result Reply × Option (Handle L callbacks)) (h : Handle L callbacks)
      → IsReply r.0
      → IsReply (if not out then (ok refused, some h) else r).0
  unless-IsReply true r h g = g
  unless-IsReply false r h g = refused-IsReply

  -- The common shape: a name, then an operation on the store.
  pub named-IsReply :
      {A : Type 0} (given : Bool) (id : Bytes) (next : A → Result Reply)
      (op : Text → Exec (Handle L callbacks) A)
      → ((a : A) → IsReply (next a))
      → Good (with_str L callbacks given id (λ f. on_handle L callbacks given next (op f)))
  named-IsReply given id next op h =
      with_str-IsReply given id (λ f. on_handle L callbacks given next (op f))
        (λ f. on_handle-IsReply given next (op f) h)

  -- The same behind a test of an out pointer.
  pub guarded-IsReply :
      {A : Type 0} (out given : Bool) (id : Bytes) (next : A → Result Reply)
      (op : Text → Exec (Handle L callbacks) A) (s : Handle L callbacks)
      → ((a : A) → IsReply (next a))
      → IsReply
          (if not out
            then (ok refused, some s)
            else with_str L callbacks given id (λ f. on_handle L callbacks given next (op f)) s).0
  guarded-IsReply out given id next op s h =
      unless-IsReply out
        (with_str L callbacks given id (λ f. on_handle L callbacks given next (op f)) s) s
        (named-IsReply given id next op h s)

  -- What the ingest calls do with the bytes.
  abbrev pub sliced :
      (given : Bool) (id : Bytes) (next : List Text → Result Reply)
      (f : Text → Bytes → Exec (Handle L callbacks) (List Text))
      → Bytes
      → Next
  sliced given id next f slice =
      with_str L callbacks given id (λ file_id. on_handle L callbacks given next (f file_id slice))

  pub sliced-IsReply :
      (memory : Option Bytes) (len : ℕ) (given : Bool) (id : Bytes)
      (next : List Text → Result Reply) (f : Text → Bytes → Exec (Handle L callbacks) (List Text))
      → ((ds : List Text) → IsReply (next ds))
      → Good (with_slice L callbacks memory len (sliced given id next f))
  sliced-IsReply memory len given id next f h =
      with_slice-IsReply memory len (sliced given id next f)
        (λ slice. named-IsReply given id next (λ file_id. f file_id slice) h)
