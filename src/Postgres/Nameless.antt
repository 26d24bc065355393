-- ===== src/Postgres/Nameless.antt =====
-- A file with an empty name, in a store of core/src/store/mod.rs on Postgres: `commit` refuses it only
-- after the database has taken it.
use chunkstore.Base.{
  subst, ℕ, ◌+◌, ◌<◌, ◌≡◌, ◌∙◌, refl, sym, ap, Option, none, some, ◌⊎◌, inl, inr, List, [], ◌∷◌,
  arith, map, All, is_empty, true, false, Bool-cases, length,
}
use chunkstore.Base.Text.{Text, Bytes, codes}
use chunkstore.Base.Map.{Map, lookup, lookup-insert, insert}
use chunkstore.Error.{invalid_argument, ok_or, Result, ok, err, hang, not_found, map_err}
use chunkstore.Exec.Inversion.{IsFailure}
use chunkstore.Exec.{each}
use chunkstore.Manifest
use chunkstore.Manifest.{Manifest, insert_file, remove_file}
use chunkstore.Store.{IngestSession, new_session}
use chunkstore.Store.World.{World}
use chunkstore.Store.Frames.{BState}
use chunkstore.Store.Session.{session_after, session_after-digests}
use chunkstore.Store.Invariant.{named, digest, occurs}
use chunkstore.Postgres.Server.{ManifestRow, Server}
use chunkstore.Postgres.Rows.{insert_rows, load_manifests, json_digests}
use chunkstore.Postgres.Laws.{Has, IsServer, IsUp, bigint_end}
use chunkstore.Postgres.Succeeding.{IsOk, Spared, run_commit-IsOk}
use chunkstore.Postgres.Atomic.{Commit, run_commit, ingest}
use chunkstore.Postgres.Committed.{old_list}
use chunkstore.Postgres.Effects.{Counted, run_commit_lem, run_commit-Counted}
use chunkstore.Postgres.Shared.{
  open_connected, ingest_chunks, commit, delete_blobs, peek_digests, read,
}
use chunkstore.Postgres.Answering.{peek_up, session-Fits, KeepsOne, counts_named}
use chunkstore.Postgres.Blobs.{put_all}
use chunkstore.Postgres.Serving.{begun, put-Serves, QStore, Serves}
use mathlib.Core.Option

abbrev pub no_name : Text
no_name = []

module _ (W : World) (Q : Server) (law : IsServer Q) where
  unnamed :
      (row : ManifestRow Q.Value) (v : Q.Value) (n : ℕ) (rows : List (ManifestRow Q.Value))
      → is_empty row.file_id ≡ false
      → Has no_name v n (row ∷ rows)
      → Has no_name v n rows
  unnamed row v n rows e (inl same) =
      let empty : is_empty row.file_id ≡ true = rw same refl in absurd (cc)
  unnamed row v n rows e (inr h) = h

  -- One round of the loop of `load_manifests`, before rows that it fails at.
  round_nameless :
      (q : Text ⊎ List Text) (row : ManifestRow Q.Value) (rows : List (ManifestRow Q.Value))
      (m : Manifest)
      → Q.from_value row.digests ≡ q
      → (is_empty row.file_id ≡ false → (m' : Manifest) → IsFailure (insert_rows Q rows m').0)
      → IsFailure (insert_rows Q (row ∷ rows) m).0
  unfolding insert_rows json_digests insert_file
  round_nameless (inl e) row rows m read rest = rw read tt
  round_nameless (inr ds) row rows m read rest = elim (Bool-cases (is_empty row.file_id)) [
    | inl empty ↦ rw (read, empty) tt
    | inr filled ↦ rw (read, filled) (rest filled _)
  ]

  -- The loop fails at the row with no name, or before it.
  insert_rows_nameless :
      (rows : List (ManifestRow Q.Value)) (v : Q.Value) (n : ℕ) (m : Manifest)
      → Has no_name v n rows
      → IsFailure (insert_rows Q rows m).0
  insert_rows_nameless [] v n m h = absurd h
  insert_rows_nameless (row ∷ rows) v n m h =
      round_nameless (Q.from_value row.digests) row rows m refl
        λ filled m'. insert_rows_nameless rows v n m' (unnamed row v n rows filled h)

  and_then-IsFailure :
      {A B : Type 0} (r : Result A) (f : A → Result B)
      → IsFailure r
      → IsFailure (chunkstore.Error.◌>>=◌ r f)
  and_then-IsFailure (ok a) f h = absurd h
  and_then-IsFailure (err e) f h = tt
  and_then-IsFailure hang f h = tt

  loads_nameless :
      (db : Q.Db) (v : Q.Value) (n : ℕ) (q : Text ⊎ List (ManifestRow Q.Value))
      → (law.committed db).files no_name ≡ some (v, n)
      → Q.select_manifests db ≡ q
      → IsFailure (load_manifests Q db).0
  unfolding load_manifests
  loads_nameless db v n (inl m) there e = rw e tt
  loads_nameless db v n (inr rows) there e = rw e (
      and_then-IsFailure (insert_rows Q rows Manifest.new).0 _ (
        insert_rows_nameless rows v n Manifest.new
          (law.select_manifests_lem db rows no_name v n e there)))

  recorded_row :
      (x : Option (Q.Value × ℕ)) (ds : List Text)
      → Option.map (λ y. Q.from_value y.0) x ≡ some (inr ds)
      → (v : Q.Value) × (n : ℕ) × (x ≡ some (v, n))
  recorded_row none ds e = absurd (cc)
  recorded_row (some (v, n)) ds e = (v, n, refl)

  -- A database that records a file with no name can not be opened.
  open_nameless :
      (b : BState W) (db : Q.Db) (files : Map (List Text)) (ds : List Text)
      → Counted Q law db files
      → lookup no_name files ≡ some ds
      → IsFailure (open_connected W.platform Q b db)
  unfolding open_connected
  open_nameless b db files ds counted there =
      let seen : Option.map (λ y. Q.from_value y.0) ((law.committed db).files no_name)
          ≡ some (inr ds) =
        counted.files_lem no_name ∙ ap (Option.map inr) there in
      let (v, n, row) = recorded_row ((law.committed db).files no_name) ds seen in
      and_then-IsFailure (load_manifests Q db).0 _
        (loads_nameless db v n (Q.select_manifests db) row refl)

  module _ (up : IsUp Q law) where
    committed_nameless :
        (s : QStore W Q law) (session : IngestSession) (files : Map (List Text))
        (r : Result (List Text)) (db' : Q.Db)
        → Serves W Q law s files
        → run_commit Q
            (ingest no_name session.digests session.file_bytes session.sizes (lookup no_name files))
            s.pg
          ≡ (r, db')
        → IsOk r
        → ((commit W.platform Q session no_name s).0
            ≡ err (invalid_argument (codes "file_id cannot be empty")))
          × Counted Q law
              (commit W.platform Q session no_name s).1.pg
              (insert no_name session.digests files)
    unfolding run_commit commit peek_digests delete_blobs each insert_file
    committed_nameless s session files (ok out) db' served e h =
        let c : Commit =
          ingest no_name session.digests session.file_bytes session.sizes (lookup no_name files) in
        let none_lost : out ≡ [] = (run_commit_lem Q law c out s.pg db' e).0 in
        let counted = run_commit-Counted Q law c out s.pg db' files served.counted refl e in
        rw (peek_up W Q law up no_name s.pg files served.counted, e, none_lost) (refl, counted)
    committed_nameless s session files (err m) db' served e h = absurd h
    committed_nameless s session files hang db' served e h = absurd h

    -- Ingesting under the empty name, where no digest of a file that stood there runs out, fails with
    -- `invalid_argument`; but the database has recorded the file by then, and opening a store on
    -- the database that the call leaves fails. The chunks' lengths and the counts stay below 2^63.
    pub ingest_chunks_nameless_pg :
        (s : QStore W Q law) (cs : List Bytes) (files : Map (List Text)) (b : BState W)
        → Serves W Q law s files
        → All W.Known cs
        → All (λ n. n < bigint_end) (map length cs)
        → ((d : Text) → named d files + occurs d (map (digest W) cs) < bigint_end)
        → KeepsOne W Q law up files (old_list (lookup no_name files)) (map (digest W) cs)
        → let (r, s') = ingest_chunks W.platform Q no_name cs s in
          (r ≡ err (invalid_argument (codes "file_id cannot be empty")))
          × IsFailure (open_connected W.platform Q b s'.pg)
    unfolding ingest_chunks
    ingest_chunks_nameless_pg s cs files b served known small room keeps =
        let put = put_all W Q cs s.store new_session served.codec served.honest known in
        let session : IngestSession = session_after W cs new_session in
        let digests : session.digests ≡ map (digest W) cs =
          session_after-digests W cs new_session in
        let next : QStore W Q law = begun W Q law s put.backend in
        let serves = put-Serves W Q law s cs new_session files served put in
        let c : Commit =
          ingest no_name session.digests session.file_bytes session.sizes (lookup no_name files) in
        let fits =
          session-Fits W Q law up no_name cs next files (lookup no_name files) serves small room in
        let spared : Spared Q law up c next.pg = (counts_named W Q law up c next files serves).1 (
          subst (KeepsOne W Q law up files (old_list (lookup no_name files))) (sym digests)
            keeps) in
        let done =
          committed_nameless next session files (run_commit Q c next.pg).0
            (run_commit Q c next.pg).1 serves refl
            ((run_commit-IsOk Q law up c next.pg fits).1 spared) in
        rw put.run (
          done.0,
          open_nameless b _ (insert no_name session.digests files) session.digests done.1
              (rw lookup-insert (ground arith)),
        )
