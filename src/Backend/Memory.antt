-- ===== src/Backend/Memory.antt =====
-- `MemoryBackend` of core/src/store/mod.rs: a hash map. Its lock is taken for one call at a time and
-- no call panics, so the lock is never poisoned.
use chunkstore.Base.{
  ℕ, ◌≡◌, refl, ◌↔◌, Bool, true, ◌&&◌, some, List, [], ◌∷◌, is_some, if◌then◌else◌, arith, length,
}
use chunkstore.Base.Text.{Text, Bytes}
use chunkstore.Base.Map.{Map, lookup, insert, remove, lookup-insert, lookup-remove}
use chunkstore.Error.{ok}
use chunkstore.Exec.{Exec}
use chunkstore.Backend.{ChunkBackend}
use chunkstore.Backend.Lawful.{IsLawful, starts_with, contains}

-- `data.keys().filter(|k| k.starts_with(prefix))`
unfoldable pub matching : Text → Map Bytes → List Text
matching prefix [] = []
matching prefix ((k, v) ∷ m) =
    let rest = matching prefix m in if starts_with k prefix then k ∷ rest else rest

abbrev pub memory_backend : ChunkBackend
memory_backend = record {
  State = Map Bytes;
  get = λ key m. (ok (lookup key m), m);
  put = λ key value m. (ok tt, insert key value m);
  exists = λ key m. (ok (is_some (lookup key m)), m);
  delete = λ key m. (ok tt, remove key m);
  list_keys = λ prefix m. (ok (some (matching prefix m)), m);
}

unfoldable pub key_count : Exec (Map Bytes) ℕ
key_count m = (ok (length m), m)

unfoldable pub contains_key : Text → Exec (Map Bytes) Bool
contains_key key = memory_backend.exists key

contains-matching :
    (prefix k : Text) (m : Map Bytes)
    → contains k (matching prefix m) ≡ (starts_with k prefix && is_some (lookup k m))
unfolding matching lookup
contains-matching prefix k [] = ground arith
contains-matching prefix k ((j, v) ∷ m) = ground (arith, contains-matching prefix k m)

listed_memory :
    (p : Text) (m : Map Bytes) (keys : List Text) (k : Text)
    → some (matching p m) ≡ some keys
    → (contains k keys ≡ true) ↔ ((starts_with k p ≡ true) × (is_some (lookup k m) ≡ true))
listed_memory p m keys k e =
    let same : matching p m ≡ keys = cc in rw (← same, contains-matching) (ground arith)

memory_laws : IsLawful memory_backend
memory_laws = record {
  view = λ m k. lookup k m;
  written = insert;
  deleted = remove;
  listed = λ prefix m. some (matching prefix m);
  get_lem = λ k m. refl;
  exists_lem = λ k m. refl;
  put_lem = λ k v m. refl;
  delete_lem = λ k m. refl;
  list_keys_lem = λ p m. refl;
  view-written = λ k v m j. lookup-insert j k v m;
  view-deleted = λ k m j. lookup-remove j k m;
  contains-listed = λ p m keys k e. listed_memory p m keys k e;
}

-- The in-memory backend behaves as a map from keys to bytes: what it holds under a key is what its
-- hash map has there, and it lists the keys of its hash map that start with a prefix.
pub memory_backend-IsLawful :
    (law : IsLawful memory_backend) × ((m : Map Bytes) (k : Text) → law.view m k ≡ lookup k m)
    × ((m : Map Bytes) (prefix : Text) → law.listed prefix m ≡ some (matching prefix m))
unfolding memory_laws
memory_backend-IsLawful = (memory_laws, λ m k. refl, λ m prefix. refl)
