-- ===== src/Postgres/Laws.antt =====
-- What the theorems about core/src/store/postgres_meta.rs assume of the database. One client works
-- on it at a time.
use chunkstore.Base.{
  ℕ, suc, ◌<◌, ◌^◌, ◌≡◌, Option, none, some, inl, inr, ◌⊎◌, [], ◌∷◌, if◌then◌else◌, List, map, ltb,
}
use chunkstore.Base.Text.{Text, text_eq}
use chunkstore.Backend.Lawful.{contains}
use chunkstore.RefCount.{ChunkRef}
use chunkstore.RefCount.Laws.{count_of}
use chunkstore.Postgres.Server.{Server, ManifestRow, RefCountRow}

-- The contents of the two tables, by their primary keys.
pub record Tables (Value : Type 0) : Type 0 where
  pub counts : Text → Option ChunkRef
  pub files : Text → Option (Value × ℕ)

-- The largest BIGINT is one less.
abbrev pub bigint_end : ℕ
bigint_end = 2 ^ 63

-- `size` of the row that ON CONFLICT finds, or the one given.
abbrev pub size_in : Option ChunkRef → ℕ → ℕ
size_in none size = size
size_in (some r) size = r.size

-- A row with this key and these values is among the rows.
abbrev pub Has : {Value : Type 0} → Text → Value → ℕ → List (ManifestRow Value) → Type 0
Has f v n [] = ⊥
Has f v n (row ∷ rows) =
    (row ≡ record { file_id = f; digests = v; file_bytes = n }) ⊎ Has f v n rows

-- What Postgres documents for the statements, when they succeed. They may fail for any reason.
pub record IsServer (P : Server) : Type 1 where
  -- What a new transaction would see, what an open one sees, and what it was opened on.
  pub committed : P.Db → Tables P.Value
  pub seen : P.Txn → Tables P.Value
  pub base : P.Txn → P.Db
  -- The constraint CHECK (count > 0), and the range of a BIGINT.
  pub count_checked :
      (t : P.Txn) (d : Text) (r : ChunkRef)
      → (seen t).counts d ≡ some r
      → (0 < r.count) × (r.count < bigint_end)
  pub begin_lem :
      (db : P.Db) (t : P.Txn) → P.begin db ≡ inr t → (base t ≡ db) × (seen t ≡ committed db)
  pub rollback_lem : (t : P.Txn) → P.rollback t ≡ base t
  pub commit_done : (t : P.Txn) (db : P.Db) → P.commit t ≡ (inr tt, db) → committed db ≡ seen t
  -- A COMMIT that is answered by an error was rolled back, or it took effect and its answer was lost.
  pub commit_failed :
      (t : P.Txn) (m : Text) (db : P.Db)
      → P.commit t ≡ (inl m, db)
      → (db ≡ base t) ⊎ (committed db ≡ seen t)
  -- INSERT .. ON CONFLICT .. RETURNING count
  pub insert_refcount_base :
      (d : Text) (n : ℕ) (t : P.Txn) → base (P.insert_refcount d n t).1 ≡ base t
  pub insert_refcount_lem :
      (d : Text) (n : ℕ) (t t' : P.Txn) (c : ℕ)
      → P.insert_refcount d n t ≡ (inr c, t')
      → (c ≡ suc (count_of ((seen t).counts d)))
        × ((j : Text)
            → (seen t').counts j ≡ (
                if text_eq j d
                then some (record { count = c; size = size_in ((seen t).counts d) n })
                else (seen t).counts j))
        × ((seen t').files ≡ (seen t).files)
  -- UPDATE .. RETURNING count
  pub update_refcount_base : (d : Text) (t : P.Txn) → base (P.update_refcount d t).1 ≡ base t
  pub update_refcount_some :
      (d : Text) (t t' : P.Txn) (c : ℕ)
      → P.update_refcount d t ≡ (inr (some c), t')
      → (r : ChunkRef) × ((seen t).counts d ≡ some r)
        × (r.count ≡ suc c)
        × ((j : Text)
            → (seen t').counts j
              ≡ (if text_eq j d then some (record r { count = c }) else (seen t).counts j))
        × ((seen t').files ≡ (seen t).files)
  pub delete_refcount_base : (d : Text) (t : P.Txn) → base (P.delete_refcount d t).1 ≡ base t
  pub insert_manifest_base :
      (f : Text) (v : P.Value) (n : ℕ) (t : P.Txn) → base (P.insert_manifest f v n t).1 ≡ base t
  pub insert_manifest_lem :
      (f : Text) (v : P.Value) (n : ℕ) (t t' : P.Txn)
      → P.insert_manifest f v n t ≡ (inr tt, t')
      → ((seen t').counts ≡ (seen t).counts)
        × ((j : Text) → (seen t').files j ≡ (if text_eq j f then some (v, n) else (seen t).files j))
  pub delete_manifest_base : (f : Text) (t : P.Txn) → base (P.delete_manifest f t).1 ≡ base t
  pub delete_manifest_lem :
      (f : Text) (t t' : P.Txn)
      → P.delete_manifest f t ≡ (inr tt, t')
      → ((seen t').counts ≡ (seen t).counts)
        × ((j : Text) → (seen t').files j ≡ (if text_eq j f then none else (seen t).files j))
  pub select_digests_lem :
      (f : Text) (db : P.Db) (o : Option P.Value)
      → P.select_digests f db ≡ inr o
      → o ≡ mathlib.Core.Option.map (λ x. x.0) ((committed db).files f)
  pub select_manifests_lem :
      (db : P.Db) (rows : List (ManifestRow P.Value)) (f : Text) (v : P.Value) (n : ℕ)
      → P.select_manifests db ≡ inr rows
      → (committed db).files f ≡ some (v, n)
      → Has f v n rows
  -- The column is TEXT, so the rows give back the keys as they are, each with a count above 0.
  pub select_refcounts_lem :
      (db : P.Db) (rows : List RefCountRow) (d : Text)
      → P.select_refcounts db ≡ inr rows
      → contains d (map (λ row. row.digest) rows) ≡ ltb 0 (count_of ((committed db).counts d))
  -- `serde_json` reads back what it wrote.
  pub value_read : (l : List Text) (v : P.Value) → P.to_value l ≡ inr v → P.from_value v ≡ inr l

-- A database that answers: no statement fails that the constraints allow.
pub record IsUp (P : Server) (law : IsServer P) : Type 0 where
  pub begins : (db : P.Db) → (t : P.Txn) × (P.begin db ≡ inr t)
  pub commits : (t : P.Txn) → (db : P.Db) × (P.commit t ≡ (inr tt, db))
  pub inserts :
      (d : Text) (n : ℕ) (t : P.Txn)
      → suc (count_of ((law.seen t).counts d)) < bigint_end
      → n < bigint_end
      → (c : ℕ) × (t' : P.Txn) × (P.insert_refcount d n t ≡ (inr c, t'))
  pub updates :
      (d : Text) (t : P.Txn)
      → 1 < count_of ((law.seen t).counts d)
      → (c : ℕ) × (t' : P.Txn) × (P.update_refcount d t ≡ (inr (some c), t'))
  pub inserts_manifest :
      (f : Text) (v : P.Value) (n : ℕ) (t : P.Txn)
      → (t' : P.Txn) × (P.insert_manifest f v n t ≡ (inr tt, t'))
  pub deletes_manifest :
      (f : Text) (t : P.Txn) → (t' : P.Txn) × (P.delete_manifest f t ≡ (inr tt, t'))
  pub selects : (f : Text) (db : P.Db) → (o : Option P.Value) × (P.select_digests f db ≡ inr o)
  pub encodes : (l : List Text) → (v : P.Value) × (P.to_value l ≡ inr v)
