-- ===== src/Postgres/Ingest.antt =====
-- `ingest` of core/src/store/mod.rs on Postgres: a session, then its commit.
use chunkstore.Base.{
  subst, ◌<◌, ◌≡◌, ◌∙◌, refl, ap, ◌⊎◌, inl, inr, List, arith, map, All, is_empty, false,
}
use chunkstore.Base.Text.{Text, Bytes}
use chunkstore.Base.Map.{Map, lookup, insert}
use chunkstore.Error.{Result, ok, err, hang}
use chunkstore.Exec.Inversion.{bind-IsFailure}
use chunkstore.Exec.{each}
use chunkstore.Manifest.{insert_file}
use chunkstore.Store.{IngestSession, new_session}
use chunkstore.Store.World.{World}
use chunkstore.Store.Session.{session_after, session_after-digests}
use chunkstore.Store.Invariant.{Holds, digest, occurs}
use chunkstore.Postgres.Server.{Server}
use chunkstore.Postgres.Rows.{manifest_digests}
use chunkstore.Postgres.Laws.{IsServer}
use chunkstore.Postgres.Atomic.{Commit, run_commit, ingest}
use chunkstore.Postgres.Committed.{count_at}
use chunkstore.Postgres.Effects.{run_commit_lem, Applied, Applied-Counted, failed_keeps}
use chunkstore.Postgres.Shared.{ingest_chunks, commit, delete_blobs, peek_digests}
use chunkstore.Postgres.Blobs.{put_all}
use chunkstore.Postgres.Serving.{
  begun, put-Serves, QStore, Serves, Outcome, moved, kept, peek_lem, occurs-Holds,
}
use native.Mathlib.Decide.{dec_lt}

module _ (W : World) (Q : Server) (law : IsServer Q) where
  module _ (f : Text) (files : Map (List Text)) (s : QStore W Q law)
      (served : Serves W Q law s files) where
    module _ (cs : List Bytes) (session : IngestSession) (filled : is_empty f ≡ false)
        (digests : session.digests ≡ map (digest W) cs)
        (there : All (λ c. Holds W s.store (digest W c)) cs)
        (peeked : manifest_digests Q f s.pg ≡ (ok (lookup f files), s.pg)) where
      abbrev call : Commit
      call = ingest f session.digests session.file_bytes session.sizes (lookup f files)

      -- A digest that is counted after the call was counted before, or is the session's.
      still_held :
          (db' : Q.Db)
          → Applied Q law call s.pg db'
          → (d : Text) → 0 < count_at Q law db' d
          → Holds W s.store d
      still_held db' (counts, _, _) d pos = elim (dec_lt 0 (count_at Q law s.pg d)) [
        | yes before ↦ served.present d before
        | no new ↦
            let listed : 0 < occurs d session.digests = omega (arith, counts d) in
            occurs-Holds W s.store cs d there (rw (← digests) listed)
      ]

      -- The call's effect is there, and the blobs are as before.
      applied_lem :
          (t : QStore W Q law)
          → t.store.backend ≡ s.store.backend
          → t.store.codec ≡ s.store.codec
          → Applied Q law call s.pg t.pg
          → Serves W Q law t (insert f session.digests files)
      applied_lem t same coded applied =
          moved W Q law s t files _ served same coded
            (Applied-Counted Q law call s.pg t.pg files served.counted refl applied)
            (still_held t.pg applied)

      failed_lem :
          (t : QStore W Q law)
          → t.store.backend ≡ s.store.backend
          → t.store.codec ≡ s.store.codec
          → (t.pg ≡ s.pg) ⊎ Applied Q law call s.pg t.pg
          → Serves W Q law t files ⊎ Serves W Q law t (insert f session.digests files)
      failed_lem t same coded (inl db) = inl (kept W Q law s t files served same coded db)
      failed_lem t same coded (inr applied) = inr (applied_lem t same coded applied)

      committed_lem :
          (r : Result (List Text)) (db' : Q.Db)
          → run_commit Q call s.pg ≡ (r, db')
          → Outcome W Q law session.digests
              (commit W.platform Q session f s)
              (insert f session.digests files)
              files
      unfolding run_commit commit peek_digests delete_blobs each insert_file
      committed_lem (ok out) db' e =
          let (none_lost, applied) = run_commit_lem Q law call out s.pg db' e in
          rw (peeked, e, none_lost, filled) (inl (refl, applied_lem _ refl refl applied))
      committed_lem (err m) db' e =
          let same = failed_keeps Q law call s.pg db' (err m) e tt in
          rw (peeked, e) (inr (tt, failed_lem _ refl refl same))
      committed_lem hang db' e =
          let same = failed_keeps Q law call s.pg db' hang e tt in
          rw (peeked, e) (inr (tt, failed_lem _ refl refl same))

      commit_lem :
          Outcome W Q law session.digests
            (commit W.platform Q session f s)
            (insert f session.digests files)
            files
      commit_lem = committed_lem (run_commit Q call s.pg).0 (run_commit Q call s.pg).1 refl

    -- Wherever `commit` stops.
    commit_any :
        (cs : List Bytes) (session : IngestSession) (filled : is_empty f ≡ false)
        → session.digests ≡ map (digest W) cs
        → All (λ c. Holds W s.store (digest W c)) cs
        → Outcome W Q law session.digests
            (commit W.platform Q session f s)
            (insert f session.digests files)
            files
    unfolding commit peek_digests
    commit_any cs session filled digests there =
        let (same, found) = peek_lem W Q law f s.pg files served.counted in
        elim found [
          | inl value ↦ commit_lem cs session filled digests there (cc)
          | inr bad ↦
              let (fails, state) = bind-IsFailure (peek_digests W.platform Q f) _ s bad in
              inr (
                fails,
                inl (
                    kept W Q law s _ files served (ap (λ x. x.store.backend) state)
                      (ap (λ x. x.store.codec) state) (ap (λ x. x.pg) state ∙ same)),
              )
        ]

  -- On a store that serves some files, ingesting known chunks under a name that is not empty either
  -- returns their digests, and the store then serves the files with this one put in; or it fails, at
  -- any point, and the store serves the files as before, or with this one put in, as where only the
  -- answer to the COMMIT is lost. No file loses a blob either way.
  pub ingest_chunks-Serves :
      (s : QStore W Q law) (f : Text) (cs : List Bytes) (files : Map (List Text))
      → Serves W Q law s files
      → is_empty f ≡ false
      → All W.Known cs
      → Outcome W Q law
          (map (digest W) cs)
          (ingest_chunks W.platform Q f cs s)
          (insert f (map (digest W) cs) files)
          files
  unfolding ingest_chunks
  ingest_chunks-Serves s f cs files served filled known =
      let put = put_all W Q cs s.store new_session served.codec served.honest known in
      let digests : (session_after W cs new_session).digests ≡ map (digest W) cs =
        session_after-digests W cs new_session in
      let next : QStore W Q law = begun W Q law s put.backend in
      let serves = put-Serves W Q law s cs new_session files served put in
      let done : Outcome W Q law (session_after W cs new_session).digests
          (commit W.platform Q (session_after W cs new_session) f next)
          (insert f (session_after W cs new_session).digests files) files =
        commit_any f files next serves cs (session_after W cs new_session) filled digests
          put.there in
      rw put.run (
        subst
          (λ ds.
            Outcome W Q law ds (commit W.platform Q (session_after W cs new_session) f next)
              (insert f ds files) files)
          digests done)
