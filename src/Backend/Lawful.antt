-- ===== src/Backend/Lawful.antt =====
-- What the store relies on: a backend behaves as a map from keys to bytes, and does not fail.
use chunkstore.Base.{
  ◌≡◌, ◌≢◌, ◌↔◌, ◌&&◌, Bool, true, Option, none, some, List, [], ◌∷◌, is_some, if◌then◌else◌, ◌||◌,
  false,
}
use chunkstore.Base.Text.{Text, Bytes, text_eq}
use chunkstore.Error.{ok}
use chunkstore.Backend.{ChunkBackend}

-- `prefix` stands at the front of the key: `key.starts_with(prefix)`.
abbrev pub starts_with : Text → Text → Bool
starts_with key [] = true
starts_with [] (p ∷ prefix) = false
starts_with (c ∷ key) (p ∷ prefix) = chunkstore.Base.◌==◌ c p && starts_with key prefix

-- `keys.contains(key)`
abbrev pub contains : Text → List Text → Bool
contains key [] = false
contains key (k ∷ keys) = text_eq key k || contains key keys

pub record IsLawful (B : ChunkBackend) : Type 1 where
  pub view : B.State → Text → Option Bytes
  pub written : Text → Bytes → B.State → B.State
  pub deleted : Text → B.State → B.State
  pub listed : Text → B.State → Option (List Text)
  pub get_lem : (k : Text) (s : B.State) → B.get k s ≡ (ok (view s k), s)
  pub exists_lem : (k : Text) (s : B.State) → B.exists k s ≡ (ok (is_some (view s k)), s)
  pub put_lem : (k : Text) (v : Bytes) (s : B.State) → B.put k v s ≡ (ok tt, written k v s)
  pub delete_lem : (k : Text) (s : B.State) → B.delete k s ≡ (ok tt, deleted k s)
  pub list_keys_lem : (p : Text) (s : B.State) → B.list_keys p s ≡ (ok (listed p s), s)
  pub view-written :
      (k : Text) (v : Bytes) (s : B.State) (j : Text)
      → view (written k v s) j ≡ (if text_eq j k then some v else view s j)
  pub view-deleted :
      (k : Text) (s : B.State) (j : Text)
      → view (deleted k s) j ≡ (if text_eq j k then none else view s j)
  -- A backend that lists keys lists those that hold bytes.
  pub contains-listed :
      (p : Text) (s : B.State) (keys : List Text) (k : Text)
      → listed p s ≡ some keys
      → (contains k keys ≡ true) ↔ ((starts_with k p ≡ true) × (is_some (view s k) ≡ true))
