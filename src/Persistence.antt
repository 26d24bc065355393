-- ===== src/Persistence.antt =====
-- core/src/store/persistence.rs: manifests and reference counts as JSON records on the backend,
-- each kind with an index of its keys.
pub mod Keys
pub mod Index
pub mod Disk
pub mod Refs
pub mod Files
pub mod Load
use chunkstore.Base.{
  ℕ, Bool, true, false, not, ◌||◌, if◌then◌else◌, ◌==◌, ltb, Option, none, some, ◌⊎◌, inl, inr,
  List, [], ◌∷◌, ◌++◌, length, all,
}
use chunkstore.Base.Text.{Text, Bytes, codes, text_eq, is_ascii_hexdigit}
use chunkstore.Error.{
  Result, ok, err, hang, ChunkStoreError, backend_error, invalid_argument, ok_or, map_err, raise_if,
}
use chunkstore.Exec.{Exec, pure, fail, lift, continue, ◌>>=◌, ◌>>◌, each}
use chunkstore.Backend.{ChunkBackend}
use chunkstore.Backend.Lawful.{contains}
use chunkstore.Json.{Json, ManifestRecord, RefCountRecord, RefCountWire}
use chunkstore.Manifest
use chunkstore.Manifest.{Manifest, insert_file}
use chunkstore.RefCount
use chunkstore.RefCount.{RefCount, set}

unfoldable pub validate_digest : Text → Result (Unit {0})
validate_digest digest =
    raise_if (not (length digest == 64) || not (all is_ascii_hexdigit digest))
      (invalid_argument (codes "invalid digest: " ++ digest))

-- `for digest in digests { validate_digest(digest)?; }`
unfoldable pub validate_digests : List Text → Result (Unit {0})
validate_digests [] = ok tt
validate_digests (d ∷ ds) = elim (validate_digest d) [
  | ok _ ↦ validate_digests ds
  | err e ↦ err e
  | hang ↦ hang
]

unfoldable pub manifest_key : Text → Text
manifest_key file_id = codes "_manifest/" ++ file_id

unfoldable pub refcount_key : Text → Text
refcount_key digest = codes "_refcount/" ++ digest

unfoldable pub manifest_index_key : Text
unfolding codes
manifest_index_key = codes "_manifest/__index__"

unfoldable pub refcount_index_key : Text
unfolding codes
refcount_index_key = codes "_refcount/__index__"

-- `index.retain(|id| id != key)`
unfoldable pub retain_ne : Text → List Text → List Text
retain_ne key [] = []
retain_ne key (id ∷ index) =
    let rest = retain_ne key index in if text_eq id key then rest else id ∷ rest

module _ (J : Json) (B : ChunkBackend) where
  unfoldable pub read_string_list : Text → Exec B.State (List Text)
  read_string_list key = do
    raw ← B.get key
    elim raw [
      | none ↦ pure []
      | some bytes ↦ lift (
          map_err (J.list_from_slice bytes)
            λ e. backend_error (codes "invalid index JSON at " ++ (key ++ (codes ": " ++ e))))
    ]

  unfoldable pub write_string_list : Text → List Text → Exec B.State (Unit {0})
  write_string_list key values = do
    payload ←
        lift
          (map_err (J.list_to_vec values) λ e. backend_error (codes "index encode failed: " ++ e))
    B.put key payload

  -- `if !index.iter().any(|id| id == key) { index.push(key); write_string_list(..)?; }`
  unfoldable pub add_to_index : Text → Text → Exec B.State (Unit {0})
  add_to_index index_key id = do
    index ← read_string_list index_key
    if contains id index then pure tt else write_string_list index_key (index ++ id ∷ [])

  unfoldable pub remove_from_index : Text → Text → Exec B.State (Unit {0})
  remove_from_index index_key id = do
    index ← read_string_list index_key
    write_string_list index_key (retain_ne id index)

  unfoldable pub save_manifest : Text → List Text → ℕ → Exec B.State (Unit {0})
  unfolding add_to_index
  save_manifest file_id digests file_bytes = do
    lift (validate_digests digests)
    payload ← lift (
        map_err (J.manifest_to_vec (record { digests = digests; file_bytes = file_bytes }))
          λ e. backend_error (codes "manifest encode failed: " ++ e))
    B.put (manifest_key file_id) payload
    add_to_index manifest_index_key file_id

  unfoldable pub remove_manifest : Text → Exec B.State (Unit {0})
  unfolding remove_from_index
  remove_manifest file_id = do
    B.delete (manifest_key file_id)
    remove_from_index manifest_index_key file_id

  unfoldable pub save_refcount : Text → ℕ → ℕ → Exec B.State (Unit {0})
  unfolding add_to_index
  save_refcount digest count size = do
    lift (validate_digest digest)
    payload ← lift (
        map_err (J.refcount_to_vec (record { count = count; size = size }))
          λ e. backend_error (codes "refcount encode failed: " ++ e))
    B.put (refcount_key digest) payload
    add_to_index refcount_index_key digest

  unfoldable pub remove_refcount : Text → Exec B.State (Unit {0})
  unfolding remove_from_index
  remove_refcount digest = do
    B.delete (refcount_key digest)
    remove_from_index refcount_index_key digest

  abbrev wire_pair : RefCountWire → ℕ × ℕ
  wire_pair (RefCountWire.legacy count) = (count, 0)
  wire_pair (RefCountWire.current r) = (r.count, r.size)

  unfoldable pub parse_refcount_record : Bytes → Text → Result (ℕ × ℕ)
  parse_refcount_record raw digest =
      chunkstore.Error.◌>>=◌
        (map_err (J.refcount_from_slice raw)
          λ e. backend_error (codes "invalid refcount JSON for " ++ (digest ++ (codes ": " ++ e))))
        (λ wire. ok (wire_pair wire))

  -- The body of the loop in `load_manifests`.
  load_manifest : Text → Manifest → Exec B.State Manifest
  load_manifest file_id manifest = do
    found ← B.get (manifest_key file_id)
    raw ← lift (ok_or found (backend_error (codes "missing manifest key " ++ manifest_key file_id)))
    r ← lift (
        map_err (J.manifest_from_slice raw)
          λ e. backend_error (codes "invalid manifest JSON for " ++ (file_id ++ (codes ": " ++ e))))
    lift (validate_digests r.digests)
    let (inserted, manifest') = insert_file file_id r.digests r.file_bytes manifest
    lift inserted
    pure manifest'

  load_manifests_from : List Text → Manifest → Exec B.State Manifest
  load_manifests_from [] manifest = pure manifest
  load_manifests_from (file_id ∷ index) manifest = do
    manifest' ← load_manifest file_id manifest
    load_manifests_from index manifest'

  unfoldable pub load_manifests : Exec B.State Manifest
  unfolding load_manifest load_manifests_from
  load_manifests = do
    index ← read_string_list manifest_index_key
    load_manifests_from index Manifest.new

  -- The body of the loop in `load_refcounts`.
  load_refcount : Text → RefCount → Exec B.State RefCount
  load_refcount digest counts = do
    lift (validate_digest digest)
    found ← B.get (refcount_key digest)
    raw ← lift (ok_or found (backend_error (codes "missing refcount key " ++ refcount_key digest)))
    parsed ← lift (parse_refcount_record raw digest)
    pure (if ltb 0 parsed.0 then set digest parsed.0 parsed.1 counts else counts)

  load_refcounts_from : List Text → RefCount → Exec B.State RefCount
  load_refcounts_from [] counts = pure counts
  load_refcounts_from (digest ∷ index) counts = do
    counts' ← load_refcount digest counts
    load_refcounts_from index counts'

  unfoldable pub load_refcounts : Exec B.State RefCount
  unfolding load_refcount load_refcounts_from
  load_refcounts = do
    index ← read_string_list refcount_index_key
    load_refcounts_from index RefCount.new
