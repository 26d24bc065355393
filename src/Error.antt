-- ===== src/Error.antt =====
-- core/src/error.rs: the errors, and `Result` of Rust with a third outcome, a call that never
-- returns (a loop that no fuel ends).
pub mod Display
use chunkstore.Base.{Bool, true, false, ◌⊎◌, inl, inr, Option, none, some}
use chunkstore.Base.Text.{Text}

pub data ChunkStoreError : Type 0 where
  backend_error : Text → ChunkStoreError
  digest_mismatch : Text → Text → ChunkStoreError
  not_found : Text → ChunkStoreError
  invalid_argument : Text → ChunkStoreError
  lock_error : ChunkStoreError
  io_error : Text → ChunkStoreError

-- `hang` is a call that gives no result: it runs for ever, or it panics.
pub data Result {ℓ} (A : Type ℓ) : Type ℓ where
  ok : A → Result A
  err : ChunkStoreError → Result A
  hang : Result A

infixl 5 ◌>>=◌ ◌>>◌
abbrev pub ◌>>=◌ {ℓ κ} : {A : Type ℓ} {B : Type κ} → Result A → (A → Result B) → Result B
ok a >>= f = f a
err e >>= f = err e
hang >>= f = hang

abbrev pub ◌>>◌ {ℓ} : {B : Type ℓ} → Result (Unit {0}) → Result B → Result B
m >> k = m >>= λ _. k

-- `return Err(..)` under a test.
abbrev pub raise_if : Bool → ChunkStoreError → Result (Unit {0})
raise_if true e = err e
raise_if false e = ok tt

-- `ok_or_else`
abbrev pub ok_or {ℓ} : {A : Type ℓ} → Option A → ChunkStoreError → Result A
ok_or none e = err e
ok_or (some a) e = ok a

-- `map_err` on the result of a library, which carries a message.
abbrev pub map_err {ℓ} : {A : Type ℓ} → Text ⊎ A → (Text → ChunkStoreError) → Result A
map_err (inl m) f = err (f m)
map_err (inr a) f = ok a
