-- ===== src/Postgres/Server.antt =====
-- What core/src/store/postgres_meta.rs calls outside the sources: the `postgres` crate with the
-- server behind it, and `serde_json` on JSONB values. Each SQL statement of the file is a field.
-- `inl` carries the message of an error of the library.
use chunkstore.Base.{ℕ, ◌⊎◌, Option, List}
use chunkstore.Base.Text.{Text}
use chunkstore.RefCount.{ChunkRef}

-- A row of `chunkstore_manifests`, and of `chunkstore_refcounts`. A BIGINT is its 64-bit pattern, so
-- `as i64` and `as u64` are the identity, and the negative numbers are those from 2^63.
pub record ManifestRow (Value : Type 0) : Type 0 where
  pub file_id : Text
  pub digests : Value
  pub file_bytes : ℕ

pub record RefCountRow : Type 0 where
  pub digest : Text
  pub entry : ChunkRef

-- A statement that only reads, and one that changes what it runs on.
abbrev pub Select : Type 0 → Type 0 → Type 0
Select S A = S → Text ⊎ A

abbrev pub Execute : Type 0 → Type 0 → Type 0
Execute S A = S → (Text ⊎ A) × S

pub record Server : Type 1 where
  -- The database that a client is connected to, and an open transaction on it.
  pub Db : Type 0
  pub Txn : Type 0
  -- `serde_json::Value`
  pub Value : Type 0
  pub to_value : List Text → Text ⊎ Value
  pub from_value : Value → Text ⊎ List Text
  -- `Client::connect(dsn, NoTls)`
  pub connect_client : Text → Text ⊎ Db
  -- `batch_execute(SCHEMA)`: CREATE TABLE IF NOT EXISTS for the two tables.
  pub create_tables : Execute Db (Unit {0})
  -- SELECT file_id, digests, file_bytes FROM chunkstore_manifests
  pub select_manifests : Select Db (List (ManifestRow Value))
  -- SELECT digest, count, size FROM chunkstore_refcounts
  pub select_refcounts : Select Db (List RefCountRow)
  -- SELECT digests FROM chunkstore_manifests WHERE file_id = $1
  pub select_digests : Text → Select Db (Option Value)
  -- SELECT COALESCE(SUM(size * count), 0)::BIGINT, COALESCE(SUM(size), 0)::BIGINT
  pub select_sums : Select Db (ℕ × ℕ)
  -- SELECT size FROM chunkstore_refcounts WHERE digest = $1
  pub select_size : Text → Select Db (Option ℕ)
  -- `client.transaction()`, `txn.commit()`, and what `Drop for Transaction` does.
  pub begin : Db → Text ⊎ Txn
  pub commit : Txn → (Text ⊎ Unit {0}) × Db
  pub rollback : Txn → Db
  -- INSERT INTO chunkstore_manifests .. ON CONFLICT (file_id) DO UPDATE ..
  pub insert_manifest : Text → Value → ℕ → Execute Txn (Unit {0})
  -- DELETE FROM chunkstore_manifests WHERE file_id = $1
  pub delete_manifest : Text → Execute Txn (Unit {0})
  -- INSERT INTO chunkstore_refcounts (digest, count, size) VALUES ($1, 1, $2)
  -- ON CONFLICT (digest) DO UPDATE SET count = chunkstore_refcounts.count + 1 RETURNING count
  pub insert_refcount : Text → ℕ → Execute Txn ℕ
  -- UPDATE chunkstore_refcounts SET count = count - 1 WHERE digest = $1 RETURNING count
  pub update_refcount : Text → Execute Txn (Option ℕ)
  -- DELETE FROM chunkstore_refcounts WHERE digest = $1
  pub delete_refcount : Text → Execute Txn (Unit {0})
