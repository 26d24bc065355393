-- ===== src/Ffi/Callback.antt =====
-- `CallbackBackend` of core/src/ffi/store_ffi.rs: a backend of callbacks.
use chunkstore.Base.{◌==◌, not, Bool, true, false, if◌then◌else◌, Option, none, some, ◌++◌, take}
use chunkstore.Base.Text.{Text, Bytes, codes}
use chunkstore.Error.{Result, ok, err, backend_error, invalid_argument, ok_or, map_err}
use chunkstore.Exec.{Exec, lift, ◌>>=◌}
use chunkstore.Backend.{ChunkBackend}
use chunkstore.Ffi.Types.{ℤ, pos, equals, chunkstore_ok, Got, ChunkBackendCallbacks}
use chunkstore.Ffi.Utf8.{cstring_new}

-- `Self::cstr(key)?`
unfoldable pub cstr : Text → Result Text
cstr key = map_err (cstring_new key) (λ e. invalid_argument e)

-- An unsafe call of a callback.
abbrev call : {U A : Type 0} → (U → A × U) → Exec U A
call f u = let (a, u') = f u in (ok a, u')

abbrev pub failed_for : Text → Text → Result (Unit {0})
failed_for what key = err (backend_error (what ++ key))

-- What `get` makes of the answer. The bytes are copied and freed.
unfoldable pub answer_get : Text → Got → Result (Option Bytes)
answer_get key got =
    if not (equals got.rc chunkstore_ok)
    then err (backend_error (codes "get failed for key " ++ key))
    else ok (elim got.out_data [
      | none ↦ none
      | some bytes ↦ if got.out_len == 0 then none else some (take got.out_len bytes)
    ])

-- What `put` and `delete` make of the code.
unfoldable pub answer_code : Text → Text → ℤ → Result (Unit {0})
answer_code what key rc = if not (equals rc chunkstore_ok) then failed_for what key else ok tt

unfoldable pub answer_exists : Text → ℤ → Result Bool
answer_exists key rc =
    if equals rc (pos 1)
    then ok true
    else if equals rc (pos 0)
    then ok false
    else err (backend_error (codes "exists failed for key " ++ key))

module _ {U : Type 0} (callbacks : ChunkBackendCallbacks U) where
  unfoldable pub get : Text → Exec U (Option Bytes)
  get key = do
    get_cb ← lift (ok_or callbacks.get (backend_error (codes "backend get callback missing")))
    c_key ← lift (cstr key)
    got ← call (get_cb c_key)
    lift (answer_get key got)

  unfoldable pub put : Text → Bytes → Exec U (Unit {0})
  put key content = do
    put_cb ← lift (ok_or callbacks.put (backend_error (codes "backend put callback missing")))
    c_key ← lift (cstr key)
    rc ← call (put_cb c_key content)
    lift (answer_code (codes "put failed for key ") key rc)

  unfoldable pub exists : Text → Exec U Bool
  exists key = do
    exists_cb ←
        lift (ok_or callbacks.exists (backend_error (codes "backend exists callback missing")))
    c_key ← lift (cstr key)
    rc ← call (exists_cb c_key)
    lift (answer_exists key rc)

  unfoldable pub delete : Text → Exec U (Unit {0})
  delete key = do
    delete_cb ←
        lift (ok_or callbacks.delete (backend_error (codes "backend delete callback missing")))
    c_key ← lift (cstr key)
    rc ← call (delete_cb c_key)
    lift (answer_code (codes "delete failed for key ") key rc)

  -- `list_keys` is the default of the trait.
  abbrev pub callback_backend : ChunkBackend
  callback_backend = record {
    State = U;
    get = get;
    put = put;
    exists = exists;
    delete = delete;
    list_keys = λ prefix u. (ok none, u);
  }
