-- ===== src/Ffi/CallbackLaws.antt =====
-- What `CallbackBackend` of core/src/ffi/store_ffi.rs makes of callbacks that keep a map.
use chunkstore.Base.{
  suc, ◌≡◌, refl, Bool, true, false, ◌==◌, if◌then◌else◌, Option, none, some, is_some, is_empty, [],
  ◌∷◌, length, arith,
}
use chunkstore.Base.Text.{Text, Bytes}
use chunkstore.Error.{ok}
use chunkstore.Ffi.Types.{pos, chunkstore_ok, Got, ChunkBackendCallbacks}
use chunkstore.Ffi.Utf8.{cstring_new, nul_position}
use chunkstore.Ffi.Callback.{cstr, get, put, exists, delete, answer_get, answer_code, answer_exists}
use chunkstore.Ffi.Streaming.{take-length}

-- What a `get` callback writes for what it found: null for nothing, else the bytes and their number.
abbrev pub shown : Option Bytes → Got
shown none = record { rc = chunkstore_ok; out_data = none; out_len = 0 }
shown (some v) = record { rc = chunkstore_ok; out_data = some v; out_len = length v }

-- Callbacks that are all given and keep a map, as core/include/chunkstore.h asks.
pub record IsMap {U : Type 0} (callbacks : ChunkBackendCallbacks U) : Type 0 where
  pub view : U → Text → Option Bytes
  pub written : Text → Bytes → U → U
  pub deleted : Text → U → U
  pub get_lem : callbacks.get ≡ some (λ k u. (shown (view u k), u))
  pub put_lem : callbacks.put ≡ some (λ k v u. (chunkstore_ok, written k v u))
  pub exists_lem : callbacks.exists ≡ some (λ k u. (pos (if is_some (view u k) then 1 else 0), u))
  pub delete_lem : callbacks.delete ≡ some (λ k u. (chunkstore_ok, deleted k u))

-- An empty value is no value.
abbrev pub not_empty : Option Bytes → Option Bytes
not_empty none = none
not_empty (some v) = if is_empty v then none else some v

answer_get-shown : (k : Text) (o : Option Bytes) → answer_get k (shown o) ≡ ok (not_empty o)
unfolding answer_get
answer_get-shown k none = refl
answer_get-shown k (some []) = refl
answer_get-shown k (some (c ∷ v)) =
    let no : (suc (length v) == 0) ≡ false = ground arith in rw (no, take-length) refl

answer_exists_lem : (k : Text) (b : Bool) → answer_exists k (pos (if b then 1 else 0)) ≡ ok b
unfolding answer_exists
answer_exists_lem k true = refl
answer_exists_lem k false = refl

cstr_clean : (k : Text) → nul_position 0 k ≡ none → cstr k ≡ ok k
unfolding cstr cstring_new
cstr_clean k clean = rw (clean, cstring_new) refl

module _ {U : Type 0} (callbacks : ChunkBackendCallbacks U) (law : IsMap callbacks) where
  -- On a key without a NUL byte, the backend does to the map what its callbacks do, and finds what
  -- the map has, except that an empty value, which `exists` sees, is missing for `get`.
  pub callbacks_lem :
      (k : Text) (v : Bytes) (u : U)
      → nul_position 0 k ≡ none
      → (get callbacks k u ≡ (ok (not_empty (law.view u k)), u))
        × (exists callbacks k u ≡ (ok (is_some (law.view u k)), u))
        × (put callbacks k v u ≡ (ok tt, law.written k v u))
        × (delete callbacks k u ≡ (ok tt, law.deleted k u))
  unfolding get exists put delete answer_code
  callbacks_lem k v u clean = (
    rw (law.get_lem, cstr_clean k clean, answer_get-shown) refl,
    rw (law.exists_lem, cstr_clean k clean, answer_exists_lem) refl,
    rw (law.put_lem, cstr_clean k clean) refl,
    rw (law.delete_lem, cstr_clean k clean) refl,
  )
