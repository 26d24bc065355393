-- ===== src/Ffi/Reply.antt =====
-- What a call of the C interface answers: its code, and what it wrote through its out pointers.
use chunkstore.Base.{ℕ, ◌⊎◌, inl, inr, Bool, not, if◌then◌else◌, Option, none, some, List, ◌++◌}
use chunkstore.Base.Text.{Text, Bytes, codes}
use chunkstore.Error.{Result, ok, err, hang, invalid_argument, map_err, ◌>>=◌}
use chunkstore.Error.Display.{to_string}
use chunkstore.Json.{Json}
use chunkstore.Stats.{Stats}
use chunkstore.Ffi.Types.{ℤ, chunkstore_ok, chunkstore_err, ChunkstoreStats}
use chunkstore.Ffi.Utf8.{cstring_new}

-- The results: nothing, `*out_digests_json`, `*out_data` with `*out_len`, or `*out_stats`.
pub data Output : Type 0 where
  nothing : Output
  digests_json : Text → Output
  content : Bytes → ℕ → Output
  statistics : ChunkstoreStats → Output

pub record Reply : Type 0 where
  pub code : ℤ
  pub output : Output
  -- `*out_err`, if it was written.
  pub out_err : Option Text

-- `return CHUNKSTORE_ERR`
abbrev pub refused : Reply
refused = record { code = chunkstore_err; output = nothing; out_err = none }

abbrev pub done : Output → Reply
done output = record { code = chunkstore_ok; output = output; out_err = none }

abbrev message_of : Text ⊎ Text → Option Text
message_of (inl e) = none
message_of (inr c) = some c

-- Whether `out_err` is given decides whether a message is written; one with a NUL is dropped.
unfoldable pub write_ffi_error : Bool → Text → Option Text
write_ffi_error given message = if not given then none else message_of (cstring_new message)

-- `write_ffi_error(out_err, e.to_string()); CHUNKSTORE_ERR`
abbrev pub error_reply : Bool → Text → Reply
error_reply given message = record {
  code = chunkstore_err;
  output = nothing;
  out_err = write_ffi_error given message;
}

-- The match on a result: `Ok` goes on, `Err` is reported. A call that hangs gives no reply.
abbrev pub answer : {A : Type 0} → Bool → (A → Result Reply) → Result A → Result Reply
answer given next (ok a) = next a
answer given next (err e) = ok (error_reply given (to_string e))
answer given next hang = hang

unfoldable pub digests_to_json_cstring : Json → List Text → Result Text
digests_to_json_cstring J digests =
    map_err (J.list_to_vec digests) (λ e. invalid_argument (codes "digest json: " ++ e)) >>= λ json.
    map_err (cstring_new json) (λ e. invalid_argument e)

unfoldable pub digests_reply : Json → Bool → List Text → Result Reply
unfolding digests_to_json_cstring
digests_reply J given digests =
    answer given (λ json. ok (done (digests_json json))) (digests_to_json_cstring J digests)

-- `*out_stats`
abbrev pub stats_reply : Stats → Reply
stats_reply s = done (
    statistics (record {
      total_bytes = s.total_bytes;
      stored_bytes = s.stored_bytes;
      gc_chunks = s.gc_chunks;
    }))
