-- ===== src/Postgres/Delete.antt =====
-- `delete` and `read` of core/src/store/mod.rs on Postgres.
use chunkstore.Base.{◌<◌, ◌≡◌, ◌∙◌, refl, ap, Option, none, some, ◌⊎◌, inl, inr, List, ◌++◌, arith}
use chunkstore.Base.Text.{Text, codes}
use chunkstore.Base.Map.{Map, lookup, remove}
use chunkstore.Error.{ok_or, Result, ok, err, hang, not_found}
use chunkstore.Exec.Inversion.{IsFailure, bind-IsFailure}
use chunkstore.Exec.{each}
use chunkstore.Store.World.{World}
use chunkstore.Store.Invariant.{Holds}
use chunkstore.Postgres.Server.{Server}
use chunkstore.Postgres.Rows.{manifest_digests}
use chunkstore.Postgres.Laws.{IsServer}
use chunkstore.Postgres.Atomic.{Commit, run_commit}
use chunkstore.Postgres.Committed.{count_at}
use chunkstore.Postgres.Effects.{run_commit_lem, Applied, Applied-Counted, failed_keeps}
use chunkstore.Postgres.Shared.{delete, delete_blobs, forget_file, digests_for_file, on_pg}
use chunkstore.Postgres.Serving.{QStore, Serves, Outcome, moved, kept, peek_lem}

module _ (W : World) (Q : Server) (law : IsServer Q) where
  module _ (f : Text) (files : Map (List Text)) (s : QStore W Q law)
      (served : Serves W Q law s files) where
    -- `digests_for_file` finds the list on record, unless a call fails.
    digests_lem :
        ((digests_for_file W.platform Q f s).1 ≡ s)
        × (((digests_for_file W.platform Q f s).0
              ≡ ok_or (lookup f files) (not_found (codes "file " ++ f)))
            ⊎ IsFailure (digests_for_file W.platform Q f s).0)
    unfolding digests_for_file
    digests_lem =
        let (same, found) = peek_lem W Q law f s.pg files served.counted in
        elim found [
          | inl value ↦
              let whole : manifest_digests Q f s.pg ≡ (ok (lookup f files), s.pg) = cc in
              rw whole (refl, inl refl)
          | inr bad ↦
              let (fails, state) =
                bind-IsFailure (on_pg W.platform Q (manifest_digests Q f)) _ s bad in
              (state ∙ ap (λ db. record s { pg = db }) same, inr fails)
        ]

    module _ (ds : List Text) (recorded : lookup f files ≡ some ds)
        (found : digests_for_file W.platform Q f s ≡ (ok ds, s)) where
      abbrev call : Commit
      call = Commit.delete f ds

      held_before :
          (db' : Q.Db)
          → Applied Q law call s.pg db'
          → (d : Text) → 0 < count_at Q law db' d
          → Holds W s.store d
      held_before db' (counts, _, _) d pos = served.present d (omega (arith, counts d))

      -- The call's effect is there, and the blobs are as before.
      applied_lem :
          (t : QStore W Q law)
          → t.store.backend ≡ s.store.backend
          → t.store.codec ≡ s.store.codec
          → Applied Q law call s.pg t.pg
          → Serves W Q law t (remove f files)
      applied_lem t same coded applied =
          moved W Q law s t files _ served same coded
            (Applied-Counted Q law call s.pg t.pg files served.counted recorded applied)
            (held_before t.pg applied)

      failed_lem :
          (t : QStore W Q law)
          → t.store.backend ≡ s.store.backend
          → t.store.codec ≡ s.store.codec
          → (t.pg ≡ s.pg) ⊎ Applied Q law call s.pg t.pg
          → Serves W Q law t files ⊎ Serves W Q law t (remove f files)
      failed_lem t same coded (inl db) = inl (kept W Q law s t files served same coded db)
      failed_lem t same coded (inr applied) = inr (applied_lem t same coded applied)

      deleted_lem :
          (r : Result (List Text)) (db' : Q.Db)
          → run_commit Q call s.pg ≡ (r, db')
          → Outcome W Q law tt (delete W.platform Q f s) (remove f files) files
      unfolding run_commit delete delete_blobs forget_file each
      deleted_lem (ok out) db' e =
          let (none_lost, applied) = run_commit_lem Q law call out s.pg db' e in
          rw (found, e, none_lost) (inl (refl, applied_lem _ refl refl applied))
      deleted_lem (err m) db' e =
          let same = failed_keeps Q law call s.pg db' (err m) e tt in
          rw (found, e) (inr (tt, failed_lem _ refl refl same))
      deleted_lem hang db' e =
          let same = failed_keeps Q law call s.pg db' hang e tt in
          rw (found, e) (inr (tt, failed_lem _ refl refl same))

      delete_found : Outcome W Q law tt (delete W.platform Q f s) (remove f files) files
      delete_found = deleted_lem (run_commit Q call s.pg).0 (run_commit Q call s.pg).1 refl

    -- The file could not be found.
    not_found_lem :
        IsFailure (digests_for_file W.platform Q f s).0
        → (digests_for_file W.platform Q f s).1 ≡ s
        → Outcome W Q law tt (delete W.platform Q f s) (remove f files) files
    unfolding delete
    not_found_lem bad same =
        let (fails, state) = bind-IsFailure (digests_for_file W.platform Q f) _ s bad in
        inr (fails, inl (rw (state ∙ same) served))

    delete_at :
        (o : Option (List Text))
        → lookup f files ≡ o
        → Outcome W Q law tt (delete W.platform Q f s) (remove f files) files
    delete_at none e = elim digests_lem.1 [
      | inl value ↦
          let bad : IsFailure (digests_for_file W.platform Q f s).0 = rw (value, e) tt in
          not_found_lem bad digests_lem.0
      | inr bad ↦ not_found_lem bad digests_lem.0
    ]
    delete_at (some ds) e = elim digests_lem.1 [
      | inl value ↦
          let got : (digests_for_file W.platform Q f s).0 ≡ ok ds = rw e at value in
          let same = digests_lem.0 in delete_found ds e (cc)
      | inr bad ↦ not_found_lem bad digests_lem.0
    ]

  -- On a store that serves some files, deleting one either returns, and the store then serves the
  -- others; or it fails, at any point or because the file is not there, and the store serves the
  -- files as before, or the others, as where only the answer to the COMMIT is lost.
  pub delete-Serves :
      (s : QStore W Q law) (f : Text) (files : Map (List Text))
      → Serves W Q law s files
      → Outcome W Q law tt (delete W.platform Q f s) (remove f files) files
  delete-Serves s f files served = delete_at f files s served (lookup f files) refl
