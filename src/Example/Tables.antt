-- ===== src/Example/Tables.antt =====
-- A database for the theorems about core/src/store/postgres_meta.rs: two maps, the constraints of the
-- tables, and transactions on a copy.
pub mod Laws
use chunkstore.Base.{
  ℕ, suc, ◌*◌, ◌-◌, ◌<◌, ◌≡◌, refl, ap, ◌&&◌, ltb, Bool, Bool-cases, true, if◌then◌else◌, Option,
  none, some, ◌⊎◌, inl, inr, List, [], ◌∷◌, arith,
}
use chunkstore.Base.Text.{Text, text_eq}
use chunkstore.Base.Map.{Map, total, lookup, insert, remove, lookup-insert, lookup-remove}
use chunkstore.RefCount.{ChunkRef}
use chunkstore.RefCount.Laws.{count_of}
use chunkstore.Postgres.Server.{Server, ManifestRow, RefCountRow, Execute}
use chunkstore.Postgres.Laws.{IsServer, IsUp, Tables, size_in, bigint_end, Has}
use mathlib.Core.Option

pub record Contents : Type 0 where
  pub counts : Map ChunkRef
  pub files : Map (List Text × ℕ)

-- The contents at the start of a transaction, and those that it sees.
pub record Open : Type 0 where
  pub start : Contents
  pub now : Contents

abbrev pub allowed : ChunkRef → Bool
allowed r = ltb 0 r.count && ltb r.count bigint_end

-- A row that the constraints do not allow is no row.
abbrev pub valid : Option ChunkRef → Option ChunkRef
valid none = none
valid (some r) = if allowed r then some r else none

abbrev pub tables : Contents → Tables (List Text)
tables c = record { counts = λ d. valid (lookup d c.counts); files = λ f. lookup f c.files }

abbrev pub refused : Text
refused = 33 ∷ []

abbrev pub put_row : Text → ChunkRef → Open → Open
put_row d r t = record t { now = record t.now { counts = insert d r t.now.counts } }

abbrev pub insert_row : Text → ℕ → Execute Open ℕ
insert_row d n t =
    let old = valid (lookup d t.now.counts) in
    let c = suc (count_of old) in
    if ltb c bigint_end && ltb n bigint_end
    then (inr c, put_row d (record { count = c; size = size_in old n }) t)
    else (inl refused, t)

abbrev pub update_found : Text → Option ChunkRef → Execute Open (Option ℕ)
update_found d none t = (inr none, t)
update_found d (some r) t =
    if ltb 1 r.count
    then (inr (some (r.count - 1)), put_row d (record r { count = r.count - 1 }) t)
    else (inl refused, t)

abbrev pub manifest_rows : Map (List Text × ℕ) → List (ManifestRow (List Text))
manifest_rows [] = []
manifest_rows ((f, (v, n)) ∷ m) =
    record { file_id = f; digests = v; file_bytes = n } ∷ manifest_rows m

-- A key whose row is not allowed, or stands behind another, has no row.
abbrev pub refcount_rows : Map ChunkRef → Map ChunkRef → List RefCountRow
refcount_rows whole [] = []
refcount_rows whole ((d, r) ∷ m) =
    let rest = refcount_rows whole m in
    if ltb 0 (count_of (valid (lookup d whole)))
    then record { digest = d; entry = r } ∷ rest
    else rest

abbrev pub server : Server
server = record {
  Db = Contents;
  Txn = Open;
  Value = List Text;
  to_value = inr;
  from_value = inr;
  connect_client = λ dsn. inr (record { counts = []; files = [] });
  create_tables = λ db. (inr tt, db);
  select_manifests = λ db. inr (manifest_rows db.files);
  select_refcounts = λ db. inr (refcount_rows db.counts db.counts);
  select_digests = λ f db. inr (Option.map (λ x. x.0) (lookup f db.files));
  select_sums =
      λ db. inr (total (λ _ r. r.size * r.count) db.counts, total (λ _ r. r.size) db.counts);
  select_size = λ d db. inr (Option.map (λ (r : ChunkRef). r.size) (valid (lookup d db.counts)));
  begin = λ db. inr (record { start = db; now = db });
  commit = λ t. (inr tt, t.now);
  rollback = λ t. t.start;
  insert_manifest =
      λ f v n t. (inr tt, record t { now = record t.now { files = insert f (v, n) t.now.files } });
  delete_manifest =
      λ f t. (inr tt, record t { now = record t.now { files = remove f t.now.files } });
  insert_refcount = insert_row;
  update_refcount = λ d t. update_found d (valid (lookup d t.now.counts)) t;
  delete_refcount =
      λ d t. (inr tt, record t { now = record t.now { counts = remove d t.now.counts } });
}
