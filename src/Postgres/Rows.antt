-- ===== src/Postgres/Rows.antt =====
-- `PostgresMetadata` of core/src/store/postgres_meta.rs, statement by statement.
use chunkstore.Base.{
  ℕ, Bool, not, ◌^◌, ◌||◌, ◌==◌, leb, if◌then◌else◌, Option, none, some, ◌⊎◌, inl, inr, List, [],
  ◌∷◌, ◌++◌, map, length,
}
use chunkstore.Base.Text.{Text, codes}
use chunkstore.Error.{
  Result, ok, err, hang, ChunkStoreError, backend_error, invalid_argument, not_found, map_err,
}
use chunkstore.Exec.{Exec, pure, fail, ◌>>=◌, ◌>>◌}
use chunkstore.Manifest
use chunkstore.Manifest.{Manifest, insert_file}
use chunkstore.RefCount
use chunkstore.RefCount.{RefCount, set}
use chunkstore.Stats.{Stats}
use chunkstore.Postgres.Server.{Server, ManifestRow, RefCountRow, Select, Execute}
use chunkstore.Postgres.Trim.{trim}

-- `map_err(|e| ChunkStoreError::backend(format!("{what}: {e}")))`
abbrev pub failed : Text → Text → ChunkStoreError
failed what e = backend_error (what ++ e)

abbrev pub query : {S A : Type 0} → Text → Select S A → Exec S A
query what q s = (map_err (q s) (failed what), s)

abbrev pub execute : {S A : Type 0} → Text → Execute S A → Exec S A
execute what q s = let (r, s') = q s in (map_err r (failed what), s')

-- `n <= 0`, for a BIGINT as its pattern.
abbrev pub not_positive : ℕ → Bool
not_positive n = n == 0 || leb (2 ^ 63) n

-- `load_refcounts`: the loop over the rows.
unfoldable pub set_rows : List RefCountRow → RefCount → RefCount
set_rows [] refcount = refcount
set_rows (row ∷ rows) refcount = set_rows rows (
    if not_positive row.entry.count
    then refcount
    else set (trim row.digest) row.entry.count row.entry.size refcount)

-- One round of the loop over old digests: those that reach 0 are collected in `gc`.
abbrev pub push_if : Bool → Text → List Text → List Text
push_if zero' digest gc = if zero' then gc ++ digest ∷ [] else gc

module _ (P : Server) where
  open P use {Db, Txn, Value}

  unfoldable pub json_digests : Value → Result (List Text)
  json_digests value = map_err (P.from_value value) (failed (codes "postgres digest json: "))

  -- `PostgresMetadata::connect`: the database with its tables, or an error.
  unfoldable pub connect : Text → Result Db
  connect dsn = elim (map_err (P.connect_client dsn) (failed (codes "postgres connect: "))) [
    | ok db ↦
        let (r, db') = execute (codes "postgres schema: ") P.create_tables db in
        chunkstore.Error.◌>>=◌ r (λ _. ok db')
    | err e ↦ err e
    | hang ↦ hang
  ]

  -- The loop of `load_manifests`.
  unfoldable pub insert_rows : List (ManifestRow Value) → Exec Manifest (Unit {0})
  insert_rows [] = pure tt
  insert_rows (row ∷ rows) = do
    digests ← (λ m. (json_digests row.digests, m))
    insert_file row.file_id digests row.file_bytes
    insert_rows rows

  unfoldable pub load_manifests : Exec Db Manifest
  unfolding insert_rows
  load_manifests = do
    rows ← query (codes "postgres load manifests: ") P.select_manifests
    let (r, manifest) = insert_rows rows Manifest.new
    (λ db. (chunkstore.Error.◌>>=◌ r (λ _. ok manifest), db))

  unfoldable pub load_refcounts : Exec Db RefCount
  unfolding set_rows
  load_refcounts = do
    rows ← query (codes "postgres load refcounts: ") P.select_refcounts
    pure (set_rows rows RefCount.new)

  unfoldable pub found_digests : Option Value → Exec Db (Option (List Text))
  found_digests none db = (ok none, db)
  found_digests (some value) db =
      (chunkstore.Error.◌>>=◌ (json_digests value) (λ ds. ok (some ds)), db)

  unfoldable pub manifest_digests : Text → Exec Db (Option (List Text))
  manifest_digests file_id = do
    row ← query (codes "postgres get manifest: ") (P.select_digests file_id)
    found_digests row

  unfoldable pub compute_stats : Exec Db Stats
  compute_stats = do
    row ← query (codes "postgres stats: ") P.select_sums
    pure (record { total_bytes = row.0; stored_bytes = row.1; gc_chunks = 0 })

  unfoldable pub chunk_size : Text → Exec Db (Option ℕ)
  chunk_size digest = query (codes "postgres chunk size: ") (P.select_size digest)

  unfoldable pub list_refcounts : Exec Db (List (Text × ℕ × ℕ))
  list_refcounts = do
    rows ← query (codes "postgres list refcounts: ") P.select_refcounts
    pure (map (λ (row : RefCountRow). (trim row.digest, row.entry.count, row.entry.size)) rows)

  unfoldable pub upsert_manifest : Text → List Text → ℕ → Exec Txn (Unit {0})
  upsert_manifest file_id digests file_bytes = do
    payload ←
        (λ txn. (map_err (P.to_value digests) (failed (codes "postgres digest encode: ")), txn))
    execute (codes "postgres upsert manifest: ") (P.insert_manifest file_id payload file_bytes)

  unfoldable pub increment_refcount : Text → ℕ → Exec Txn ℕ
  increment_refcount digest size =
      execute (codes "postgres increment: ") (P.insert_refcount digest size)

  -- What follows the UPDATE: nothing was there, the row goes, or the count is returned.
  unfoldable pub after_update : Text → Option ℕ → Exec Txn ℕ
  after_update digest none = fail (not_found (codes "refcount " ++ digest))
  after_update digest (some remaining) =
      if not_positive remaining
      then execute (codes "postgres delete refcount: ") (P.delete_refcount digest) >> pure 0
      else pure remaining

  unfoldable pub decrement_refcount : Text → Exec Txn ℕ
  unfolding after_update
  decrement_refcount digest = do
    row ← execute (codes "postgres decrement: ") (P.update_refcount digest)
    after_update digest row

  -- `for (digest, size) in new_digests.iter().zip(sizes.iter())`
  unfoldable pub increment_all : List Text → List ℕ → Exec Txn (Unit {0})
  increment_all [] sizes = pure tt
  increment_all (digest ∷ digests) [] = pure tt
  increment_all (digest ∷ digests) (size ∷ sizes) = do
    count ← increment_refcount digest size
    increment_all digests sizes

  -- `for digest in digests { if decrement_refcount(..)? == 0 { gc.push(..) } }`
  unfoldable pub decrement_all : List Text → List Text → Exec Txn (List Text)
  decrement_all [] gc = pure gc
  decrement_all (digest ∷ digests) gc = do
    remaining ← decrement_refcount digest
    decrement_all digests (push_if (remaining == 0) digest gc)

  unfoldable pub decrement_old : Option (List Text) → Exec Txn (List Text)
  unfolding decrement_all
  decrement_old none = pure []
  decrement_old (some old) = decrement_all old []

  -- `txn.commit()` when the body has ended well; a body that fails drops the transaction.
  abbrev pub finish : {A : Type 0} → Text → Result A × Txn → Result A × Db
  finish what (ok a, txn) =
      let (r, db) = P.commit txn in
      (chunkstore.Error.◌>>=◌ (map_err r (failed what)) (λ _. ok a), db)
  finish what (err e, txn) = (err e, P.rollback txn)
  finish what (hang, txn) = (hang, P.rollback txn)

  -- The body that stands between `client.transaction()?` and `txn.commit()?`.
  abbrev within : {A : Type 0} → Text → Exec Txn A → Text ⊎ Txn → Db → Result A × Db
  within what body (inl e) db = (err (failed (codes "postgres begin: ") e), db)
  within what body (inr txn) db = finish what (body txn)

  unfoldable pub transaction : {A : Type 0} → Text → Exec Txn A → Exec Db A
  transaction what body db = within what body (P.begin db) db

  unfoldable pub ingest_body :
      Text → List Text → ℕ → List ℕ → Option (List Text) → Exec Txn (List Text)
  ingest_body file_id new_digests file_bytes sizes old_digests = do
    increment_all new_digests sizes
    upsert_manifest file_id new_digests file_bytes
    decrement_old old_digests

  unfoldable pub commit_ingest :
      Text → List Text → ℕ → List ℕ → Option (List Text) → Exec Db (List Text)
  unfolding transaction ingest_body
  commit_ingest file_id new_digests file_bytes sizes old_digests =
      if not (length new_digests == length sizes)
      then fail (invalid_argument (codes "digest/size length mismatch"))
      else transaction (codes "postgres commit ingest: ")
          (ingest_body file_id new_digests file_bytes sizes old_digests)

  unfoldable pub delete_body : Text → List Text → Exec Txn (List Text)
  delete_body file_id digests = do
    execute (codes "postgres delete manifest: ") (P.delete_manifest file_id)
    decrement_all digests []

  unfoldable pub commit_delete : Text → List Text → Exec Db (List Text)
  unfolding transaction delete_body
  commit_delete file_id digests =
      transaction (codes "postgres commit delete: ") (delete_body file_id digests)
