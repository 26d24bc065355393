-- ===== src/Json.antt =====
-- The `serde_json` calls of core/src/store/persistence.rs: parameters. `inl` carries the message of
-- a `serde_json::Error`.
use chunkstore.Base.{ℕ, ◌≡◌, ◌⊎◌, inr, List}
use chunkstore.Base.Text.{Text, Bytes}

-- `ManifestRecord`
pub record ManifestRecord : Type 0 where
  pub digests : List Text
  pub file_bytes : ℕ

-- `RefCountRecord`; a record with no `size` has size 0.
pub record RefCountRecord : Type 0 where
  pub count : ℕ
  pub size : ℕ

-- `RefCountWire`: the untagged forms in which a count is stored.
pub data RefCountWire : Type 0 where
  legacy : ℕ → RefCountWire
  current : RefCountRecord → RefCountWire

pub record Json : Type 0 where
  pub list_to_vec : List Text → Text ⊎ Bytes
  pub list_from_slice : Bytes → Text ⊎ List Text
  pub manifest_to_vec : ManifestRecord → Text ⊎ Bytes
  pub manifest_from_slice : Bytes → Text ⊎ ManifestRecord
  pub refcount_to_vec : RefCountRecord → Text ⊎ Bytes
  pub refcount_from_slice : Bytes → Text ⊎ RefCountWire

-- What `serde_json` documents: these values can be written, and what was written is read back.
pub record IsJson (J : Json) : Type 0 where
  pub list_bytes : List Text → Bytes
  pub manifest_bytes : ManifestRecord → Bytes
  pub refcount_bytes : RefCountRecord → Bytes
  pub list_written : (l : List Text) → J.list_to_vec l ≡ inr (list_bytes l)
  pub list_read : (l : List Text) → J.list_from_slice (list_bytes l) ≡ inr l
  pub manifest_written : (m : ManifestRecord) → J.manifest_to_vec m ≡ inr (manifest_bytes m)
  pub manifest_read : (m : ManifestRecord) → J.manifest_from_slice (manifest_bytes m) ≡ inr m
  pub refcount_written : (r : RefCountRecord) → J.refcount_to_vec r ≡ inr (refcount_bytes r)
  pub refcount_read :
      (r : RefCountRecord) → J.refcount_from_slice (refcount_bytes r) ≡ inr (RefCountWire.current r)
  -- A JSON object is no JSON array.
  pub manifest_no_list :
      (m : ManifestRecord) (l : List Text) → J.list_from_slice (manifest_bytes m) ≡ inr l → ⊥
