-- ===== src/Example/SharedTests.antt =====
-- The theorems about a store on Postgres, applied to one with two files that share a chunk.
use chunkstore.Base.{
  ◌+◌, ◌<◌, ◌≡◌, ◌↔◌, refl, ◌⊎◌, inl, inr, List, [], ◌∷◌, none, some, true, arith, length, concat,
  map, All,
}
use chunkstore.Base.Text.{Text, Bytes, codes, Text-discrete}
use chunkstore.Base.Map.{Map, lookup, lookup-insert, insert, remove}
use chunkstore.Error.{Result, ok, err, hang, invalid_argument}
use chunkstore.Exec.Inversion.{IsFailure}
use chunkstore.Store.Reading.{Chunks}
use chunkstore.Store.Invariant.{digest, occurs, named}
use chunkstore.Postgres.Laws.{bigint_end}
use chunkstore.Postgres.Atomic.{Commit, run_commit}
use native.Mathlib.Decide.{ℕ_discrete}
use chunkstore.Postgres.Rows.{
  commit_ingest, ingest_body, increment_all, increment_refcount, decrement_old, upsert_manifest,
  commit_delete, transaction, delete_body, decrement_all, decrement_refcount, after_update,
}
use chunkstore.Postgres.Committed.{old_list, count_at}
use chunkstore.Postgres.Effects.{
  run_commits, run_commits-alive, Counted, run_commit-Counted, run_commit-IsFailure, Applied,
}
use chunkstore.Postgres.Succeeding.{IsOk}
use chunkstore.Postgres.Shared.{ingest_chunks, ingest_fixed, delete, read, open_connected, fsck}
use chunkstore.Postgres.Streams.{
  ingest_reader_fixed, ingest_reader_cdc, ingest_cdc, ingest_reader-eq-whole_pg,
}
use chunkstore.Chunker.Trait.{ReadEvent, bytes}
use chunkstore.Example.Hash.{every_byte-IsFastCdc}
use chunkstore.Backend.Memory.{matching, memory_backend-IsLawful}
use chunkstore.Postgres.Scan.{Scanned, fsck-Serves}
use chunkstore.Postgres.Serving.{QStore, Serves, Outcome}
use chunkstore.Postgres.Ingest.{ingest_chunks-Serves}
use chunkstore.Postgres.Delete.{delete-Serves}
use chunkstore.Postgres.Answering.{delete-IsOk, ingest_chunks-IsOk, KeepsOne, read-Serves}
use chunkstore.Postgres.Nameless.{ingest_chunks_nameless_pg, no_name}
use chunkstore.Example.Platform.{world, platform}
use chunkstore.Example.Stores.{empty, name, chunks, chunks-known, nothing_there}
use chunkstore.Example.Tables.{server, Contents}
use chunkstore.Example.Tables.Laws.{server-IsServer, server-IsUp, committed_lem}

abbrev d1 : Text
d1 = 49 ∷ []

abbrev d2 : Text
d2 = 50 ∷ []

-- Two files, of which one has a chunk of its own.
abbrev recorded : Map (List Text)
recorded = (codes "f", d1 ∷ d2 ∷ []) ∷ (codes "g", d1 ∷ []) ∷ []

abbrev db : Contents
db = record {
  counts = (d1, record { count = 2; size = 5 }) ∷ (d2, record { count = 1; size = 6 }) ∷ [];
  files = (codes "f", (d1 ∷ d2 ∷ [], 11)) ∷ (codes "g", (d1 ∷ [], 5)) ∷ [];
}

abbrev drop_f : Commit
drop_f = Commit.delete (codes "f") (d1 ∷ d2 ∷ [])

abbrev drop_g : Commit
drop_g = Commit.delete (codes "g") (d1 ∷ [])

-- The last reference to the second chunk is refused, so deleting the first file fails.
run_f : IsFailure (run_commit server drop_f db).0
unfolding run_commit commit_delete transaction delete_body decrement_all decrement_refcount
    after_update lookup insert remove Text-discrete codes ℕ_discrete
run_f = tt

run_commit-IsFailure_example :
    ((run_commit server drop_f db).1 ≡ db)
    ⊎ Applied server server-IsServer drop_f db (run_commit server drop_f db).1
run_commit-IsFailure_example = run_commit-IsFailure server server-IsServer drop_f db run_f

one_there : 0 < count_at server server-IsServer db d1
unfolding lookup Text-discrete ℕ_discrete
one_there = rw committed_lem (omega arith)

run_commits-alive_example :
    0
    < count_at server server-IsServer
        (run_commits server server-IsServer (drop_f ∷ drop_g ∷ drop_g ∷ []) db)
        d1
run_commits-alive_example =
    run_commits-alive server server-IsServer (drop_f ∷ drop_g ∷ drop_g ∷ []) db d1 one_there

-- A store on an empty database.
abbrev store : QStore world server server-IsServer
store = record { store = empty; pg = record { counts = []; files = [] } }

no_row : (d : Text) → 0 < count_at server server-IsServer store.pg d → ⊥
unfolding lookup
no_row d pos =
    let none' : count_at server server-IsServer store.pg d ≡ 0 = rw committed_lem refl in
    omega (arith, none', pos)

store-Serves : Serves world server server-IsServer store []
unfolding lookup
store-Serves = record {
  counted = record {
    nodup = tt;
    files_lem = λ f. rw committed_lem refl;
    counts = λ d. rw committed_lem refl;
  };
  codec = refl;
  honest = λ d valid there. absurd (ground (arith, nothing_there d));
  present = λ d pos. absurd (no_row d pos);
}

ingest_chunks-Serves_example :
    Outcome world server server-IsServer
      (map (digest world) chunks)
      (ingest_chunks platform server name chunks store)
      (insert name (map (digest world) chunks) [])
      []
ingest_chunks-Serves_example =
    ingest_chunks-Serves world server server-IsServer store name chunks [] store-Serves refl
      chunks-known

room : (d : Text) → named d [] + occurs d (map (digest world) chunks) < bigint_end
room d = ground arith

small : All (λ n. n < bigint_end) (map length chunks)
small = (omega arith, (omega arith, tt))

none_there : KeepsOne world server server-IsServer server-IsUp [] [] (map (digest world) chunks)
none_there = tt

ingest_chunks-IsOk_example :
    IsOk (ingest_chunks platform server name chunks store).0
    ↔ KeepsOne world server server-IsServer server-IsUp []
        (old_list (lookup name []))
        (map (digest world) chunks)
ingest_chunks-IsOk_example =
    ingest_chunks-IsOk world server server-IsServer server-IsUp store name chunks [] store-Serves
      refl chunks-known small room

-- The store with one file.
abbrev one_file : QStore world server server-IsServer
one_file = (ingest_chunks platform server name chunks store).1

abbrev one_list : Map (List Text)
one_list = insert name (map (digest world) chunks) []

served_after :
    {A : Type 0} (a : A) (r : Result A × QStore world server server-IsServer)
    (changed files : Map (List Text))
    → IsOk r.0
    → Outcome world server server-IsServer a r changed files
    → Serves world server server-IsServer r.1 changed
served_after a (ok b, t) changed files h (inl done) = done.1
served_after a (ok b, t) changed files h (inr bad) = absurd bad.0
served_after a (err e, t) changed files h o = absurd h
served_after a (hang, t) changed files h o = absurd h

ingested : IsOk (ingest_chunks platform server name chunks store).0
unfolding lookup
ingested = ingest_chunks-IsOk_example.1 tt

one_file-Serves : Serves world server server-IsServer one_file one_list
one_file-Serves =
    served_after (map (digest world) chunks) (ingest_chunks platform server name chunks store)
      one_list [] ingested ingest_chunks-Serves_example

on_record : lookup name one_list ≡ some (map (digest world) chunks)
on_record = rw lookup-insert (ground arith)

delete-Serves_example :
    Outcome world server server-IsServer tt
      (delete platform server name one_file)
      (remove name one_list)
      one_list
delete-Serves_example =
    delete-Serves world server server-IsServer one_file name one_list one_file-Serves

delete-IsOk_example :
    IsOk (delete platform server name one_file).0
    ↔ All (λ d. occurs d (map (digest world) chunks) < named d one_list) (map (digest world) chunks)
delete-IsOk_example =
    delete-IsOk world server server-IsServer server-IsUp one_file name (map (digest world) chunks)
      one_list one_file-Serves on_record

read-Serves_example :
    (cs : List Bytes) × Chunks world one_file.store (map (digest world) chunks) cs
    × (map (digest world) cs ≡ map (digest world) chunks)
    × (read platform server name one_file ≡ (ok (concat cs), one_file))
read-Serves_example =
    read-Serves world server server-IsServer server-IsUp one_file name (map (digest world) chunks)
      one_list one_file-Serves on_record

keeps :
    KeepsOne world server server-IsServer server-IsUp []
      (old_list (lookup no_name []))
      (map (digest world) chunks)
unfolding lookup
keeps = tt

ingest_chunks_nameless_pg_example :
    let (r, s') = ingest_chunks platform server no_name chunks store in
    (r ≡ err (invalid_argument (codes "file_id cannot be empty")))
    × IsFailure (open_connected platform server [] s'.pg)
ingest_chunks_nameless_pg_example =
    ingest_chunks_nameless_pg world server server-IsServer server-IsUp store chunks [] []
      store-Serves chunks-known small room keeps

abbrev add_g : Commit
add_g = Commit.ingest name (d1 ∷ d1 ∷ []) 10 (5 ∷ 5 ∷ []) none

add_g_runs : run_commit server add_g store.pg ≡ (ok [], (run_commit server add_g store.pg).1)
unfolding run_commit commit_ingest transaction ingest_body increment_all increment_refcount
    decrement_old upsert_manifest lookup insert remove Text-discrete ℕ_discrete
add_g_runs = refl

not_yet : lookup {V = List Text} name [] ≡ none
unfolding lookup
not_yet = refl

run_commit-Counted_example :
    Counted server server-IsServer
      (run_commit server add_g store.pg).1
      (insert name (d1 ∷ d1 ∷ []) [])
run_commit-Counted_example =
    run_commit-Counted server server-IsServer add_g [] store.pg (run_commit server add_g store.pg).1
      [] store-Serves.counted not_yet add_g_runs

-- A reader that splits three bytes in two reads.
abbrev pieces : List ReadEvent
pieces = bytes (1 ∷ []) ∷ bytes (2 ∷ 3 ∷ []) ∷ []

ingest_reader-eq-whole_pg_example :
    (ingest_reader_fixed platform server name pieces 2 store
      ≡ ingest_fixed platform server name (1 ∷ 2 ∷ 3 ∷ []) 2 store)
    × (ingest_reader_cdc platform server name pieces store
        ≡ ingest_cdc platform server name (1 ∷ 2 ∷ 3 ∷ []) store)
ingest_reader-eq-whole_pg_example =
    ingest_reader-eq-whole_pg platform server every_byte-IsFastCdc name pieces (1 ∷ 2 ∷ 3 ∷ []) 2
      store refl

one_file-listed :
    world.lawful.listed [] one_file.store.backend ≡ some (matching [] one_file.store.backend)
one_file-listed = memory_backend-IsLawful.2 one_file.store.backend []

fsck-Serves_example :
    Scanned world server server-IsServer one_file one_list (fsck platform server true one_file)
fsck-Serves_example =
    fsck-Serves world server server-IsServer one_file one_list (matching [] one_file.store.backend)
      one_file-Serves one_file-listed
