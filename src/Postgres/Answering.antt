-- ===== src/Postgres/Answering.antt =====
-- A store of core/src/store/mod.rs on a database that answers: when `ingest` and `delete` return, and
-- what `read` does.
use chunkstore.Base.{
  subst, ◌↔◌, append-nil, append_assoc, length-map, ◌+◌, ◌<◌, ◌≡◌, ◌∙◌, refl, sym, Option, some,
  List, [], ◌∷◌, ◌++◌, arith, map, All, is_empty, false, concat, length,
}
use chunkstore.Base.Text.{Text, Bytes, codes}
use chunkstore.Base.Map.{Map, lookup}
use chunkstore.Error.{ok_or, Result, ok, err, hang, not_found}
use chunkstore.Exec.{each}
use chunkstore.Manifest.{insert_file}
use chunkstore.Store.{IngestSession, new_session}
use chunkstore.Store.World.{World}
use chunkstore.Store.Session.{with_chunk, session_after, session_after-digests}
use chunkstore.Store.Reading.{occurs-le-named, Chunks, find-Chunks, Chunks-digests, write-Chunks}
use chunkstore.Store.Invariant.{named, digest, occurs}
use chunkstore.Postgres.Server.{Server}
use chunkstore.Postgres.Rows.{manifest_digests}
use chunkstore.Postgres.Laws.{IsServer, IsUp, bigint_end}
use chunkstore.Postgres.Succeeding.{IsOk, Spared, Fits, run_commit-IsOk}
use chunkstore.Postgres.Atomic.{Commit, run_commit, ingest}
use chunkstore.Postgres.Committed.{gained, lost, old_list}
use chunkstore.Postgres.Effects.{Counted, run_commit_lem}
use chunkstore.Postgres.Shared.{
  ingest_chunks, commit, delete, delete_blobs, forget_file, peek_digests, digests_for_file, read,
}
use chunkstore.Postgres.Blobs.{put_all}
use chunkstore.Postgres.Serving.{begun, put-Serves, QStore, Serves, row_lem, seen_row}

module _ (W : World) (Q : Server) (law : IsServer Q) (up : IsUp Q law) where
  pub peek_up :
      (f : Text) (db : Q.Db) (files : Map (List Text))
      → Counted Q law db files
      → manifest_digests Q f db ≡ (ok (lookup f files), db)
  unfolding manifest_digests
  peek_up f db files inv =
      let (o, run) = up.selects f db in
      let row = row_lem W Q law o (lookup f files) db (
        seen_row W Q law o ((law.committed db).files f) (law.select_digests_lem f db o run)
        ∙ inv.files_lem f) in
      rw (run, row) refl

  sizes_after :
      (cs : List Bytes) (session : IngestSession)
      → (session_after W cs session).sizes ≡ session.sizes ++ map length cs
  sizes_after [] session = rw append-nil
  sizes_after (c ∷ cs) session = sizes_after cs (with_chunk W session c) ∙ rw append_assoc

  All-iff : (A B : Text → Type 0) (ds : List Text) → ((d : Text) → A d → B d) → All A ds → All B ds
  All-iff A B [] h a = tt
  All-iff A B (d ∷ ds) h a = (h d a.0, All-iff A B ds h a.1)

  -- Each digest that a list gives back is named by the files and the new list more often.
  abbrev pub KeepsOne : Map (List Text) → List Text → List Text → Type 0
  KeepsOne files old new = All (λ d. occurs d old < named d files + occurs d new) old

  pub counts_named :
      (c : Commit) (s : QStore W Q law) (files : Map (List Text))
      → Serves W Q law s files
      → Spared Q law up c s.pg ↔ KeepsOne files (lost c) (gained c)
  counts_named c s files served = (
    All-iff _ _ (lost c) (λ d h. omega (arith, served.counted.counts d)),
    All-iff _ _ (lost c) (λ d h. omega (arith, served.counted.counts d)),
  )

  module _ (f : Text) (files : Map (List Text)) (s : QStore W Q law)
      (served : Serves W Q law s files) where
    module _ (ds : List Text) (recorded : lookup f files ≡ some ds) where
      deleted-IsOk :
          (r : Result (List Text)) (db' : Q.Db)
          → run_commit Q (Commit.delete f ds) s.pg ≡ (r, db')
          → IsOk (delete W.platform Q f s).0 ↔ IsOk r
      unfolding run_commit delete digests_for_file delete_blobs forget_file each
      deleted-IsOk (ok out) db' e =
          let none_lost : out ≡ [] = (run_commit_lem Q law (Commit.delete f ds) out s.pg db' e).0 in
          rw (peek_up f s.pg files served.counted, recorded, e, none_lost) (λ u. u, λ u. u)
      deleted-IsOk (err m) db' e =
          rw (peek_up f s.pg files served.counted, recorded, e) (λ u. u, λ u. u)
      deleted-IsOk hang db' e =
          rw (peek_up f s.pg files served.counted, recorded, e) (λ u. u, λ u. u)

    module _ (session : IngestSession) (filled : is_empty f ≡ false) where
      abbrev call : Commit
      call = ingest f session.digests session.file_bytes session.sizes (lookup f files)

      committed-IsOk :
          (r : Result (List Text)) (db' : Q.Db)
          → run_commit Q call s.pg ≡ (r, db')
          → IsOk (commit W.platform Q session f s).0 ↔ IsOk r
      unfolding run_commit commit peek_digests delete_blobs each insert_file
      committed-IsOk (ok out) db' e =
          let none_lost : out ≡ [] = (run_commit_lem Q law call out s.pg db' e).0 in
          rw (peek_up f s.pg files served.counted, e, none_lost, filled) (λ u. u, λ u. u)
      committed-IsOk (err m) db' e = rw (peek_up f s.pg files served.counted, e) (λ u. u, λ u. u)
      committed-IsOk hang db' e = rw (peek_up f s.pg files served.counted, e) (λ u. u, λ u. u)

  -- What a session has collected fits the tables, if its chunks and the counts are not too large.
  pub session-Fits :
      (f : Text) (cs : List Bytes) (s : QStore W Q law) (files : Map (List Text))
      (old : Option (List Text))
      → Serves W Q law s files
      → All (λ n. n < bigint_end) (map length cs)
      → ((d : Text) → named d files + occurs d (map (digest W) cs) < bigint_end)
      → let session = session_after W cs new_session in
        Fits Q law up (ingest f session.digests session.file_bytes session.sizes old) s.pg
  session-Fits f cs s files old served small room =
      let digests = session_after-digests W cs new_session in
      let sizes = sizes_after cs new_session in
      (
        rw (digests, sizes) (length-map _ cs ∙ sym (length-map _ cs)),
        rw sizes small,
        λ d. rw digests (omega (arith, room d, served.counted.counts d)),
      )

  iff_trans : {A B C : Type 0} → A ↔ B → B ↔ C → A ↔ C
  iff_trans h k = (λ a. k.0 (h.0 a), λ c. h.1 (k.1 c))

  -- Deleting a file on record succeeds exactly when each of its digests is also named elsewhere,
  -- by another file: a file with a chunk of its own can not be deleted.
  pub delete-IsOk :
      (s : QStore W Q law) (f : Text) (ds : List Text) (files : Map (List Text))
      → Serves W Q law s files
      → lookup f files ≡ some ds
      → IsOk (delete W.platform Q f s).0 ↔ All (λ d. occurs d ds < named d files) ds
  delete-IsOk s f ds files served recorded =
      let call = Commit.delete f ds in
      iff_trans
        (deleted-IsOk f files s served ds recorded (run_commit Q call s.pg).0
          (run_commit Q call s.pg).1 refl)
        (iff_trans (run_commit-IsOk Q law up call s.pg tt) (
          iff_trans (counts_named call s files served)
            (All-iff _ _ ds (λ d h. omega arith), All-iff _ _ ds (λ d h. omega arith))))

  -- Ingesting known chunks under a name that is not empty succeeds exactly when every digest that
  -- the file so far lists is named more often, by the files and the new chunks, than the file so far
  -- names it: a new file always succeeds, and one that replaces a file fails if it would drop a
  -- chunk that only that file has. The chunks' lengths and the counts stay below 2^63.
  pub ingest_chunks-IsOk :
      (s : QStore W Q law) (f : Text) (cs : List Bytes) (files : Map (List Text))
      → Serves W Q law s files
      → is_empty f ≡ false
      → All W.Known cs
      → All (λ n. n < bigint_end) (map length cs)
      → ((d : Text) → named d files + occurs d (map (digest W) cs) < bigint_end)
      → IsOk (ingest_chunks W.platform Q f cs s).0
        ↔ KeepsOne files (old_list (lookup f files)) (map (digest W) cs)
  unfolding ingest_chunks
  ingest_chunks-IsOk s f cs files served filled known small room =
      let put = put_all W Q cs s.store new_session served.codec served.honest known in
      let session : IngestSession = session_after W cs new_session in
      let digests : session.digests ≡ map (digest W) cs = session_after-digests W cs new_session in
      let next : QStore W Q law = begun W Q law s put.backend in
      let serves = put-Serves W Q law s cs new_session files served put in
      let c : Commit = ingest f session.digests session.file_bytes session.sizes (lookup f files) in
      let fits = session-Fits f cs next files (lookup f files) serves small room in
      let chain =
        iff_trans
          (committed-IsOk f files next serves session filled (run_commit Q c next.pg).0
            (run_commit Q c next.pg).1 refl)
          (iff_trans (run_commit-IsOk Q law up c next.pg fits)
            (counts_named c next files serves)) in
      rw put.run (
        subst
          (λ ds.
            IsOk (commit W.platform Q session f next).0
            ↔ KeepsOne files (old_list (lookup f files)) ds)
          digests chain)

  digests_up :
      (f : Text) (s : QStore W Q law) (files : Map (List Text))
      → Serves W Q law s files
      → digests_for_file W.platform Q f s
        ≡ (ok_or (lookup f files) (not_found (codes "file " ++ f)), s)
  unfolding digests_for_file
  digests_up f s files served = rw (peek_up f s.pg files served.counted) refl

  -- On a store that serves some files, a file on record reads as the concatenation of chunks that
  -- have the digests on record, in order, and reading changes nothing.
  pub read-Serves :
      (s : QStore W Q law) (f : Text) (ds : List Text) (files : Map (List Text))
      → Serves W Q law s files
      → lookup f files ≡ some ds
      → (cs : List Bytes) × Chunks W s.store ds cs
        × (map (digest W) cs ≡ ds)
        × (read W.platform Q f s ≡ (ok (concat cs), s))
  unfolding read
  read-Serves s f ds files served recorded =
      let (cs, chunks) = find-Chunks W s.store ds λ d o. served.present d (
        omega (
          arith,
          served.counted.counts d,
          occurs-le-named d f ds files served.counted.nodup recorded,
        )) in
      let written = write-Chunks W s.store ds cs [] served.codec chunks in
      (
        cs,
        chunks,
        Chunks-digests W s.store ds cs chunks,
        rw (digests_up f s files served, recorded, written) refl,
      )
