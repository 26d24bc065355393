-- ===== src/Postgres/Effects.antt =====
-- What `commit_ingest` and `commit_delete` of core/src/store/postgres_meta.rs do to the tables, one
-- call and call after call.
use chunkstore.Base.{
  ◌+◌, ◌<◌, ◌≡◌, ◌∙◌, refl, ap, subst, ℕ, ◌==◌, not, Option, none, some, ◌⊎◌, inl, inr, List, [],
  ◌∷◌, arith, length, if◌then◌else◌, Bool-cases,
}
use chunkstore.Base.Text.{Text, codes, text_eq}
use chunkstore.Base.Map.{
  Map, lookup, insert, remove, NodupKeys, lookup-insert, lookup-remove, total-insert, total-remove,
  insert-NodupKeys, remove-NodupKeys, at,
}
use chunkstore.Error.{Result, ok, err, hang}
use chunkstore.Exec.Inversion.{IsFailure}
use chunkstore.Store.Invariant.{occurs, named}
use mathlib.Core.Option
use chunkstore.Postgres.Server.{Server}
use chunkstore.Postgres.Rows.{ingest_body, delete_body, commit_ingest, commit_delete, transaction}
use chunkstore.Postgres.Laws.{IsServer}
use chunkstore.Postgres.Atomic.{
  Commit, run_commit, ingest, delete, transaction_err, ingest-Stays, delete-Stays,
}
use chunkstore.Postgres.Committed.{
  count_at, digests_at, digests_after, gained, lost, old_list, transaction_ok, ingest_ok, delete_ok,
}

module _ (P : Server) (law : IsServer P) where
  -- The whole effect of a call: each count has moved up by the times that its digest is gained and
  -- down by the times that it is lost, is positive where it was, and what the named file lists has
  -- changed and no other file.
  abbrev pub Applied : Commit → P.Db → P.Db → Type 0
  Applied c db db' =
      ((j : Text)
        → count_at P law db' j + occurs j (lost c) ≡ count_at P law db j + occurs j (gained c))
      × ((j : Text) → 0 < count_at P law db j + occurs j (gained c) → 0 < count_at P law db' j)
      × ((j : Text) → digests_at P law db' j ≡ digests_after P law c db j)

  ingest_ran :
      (f : Text) (ds : List Text) (n : ℕ) (sizes : List ℕ) (old : Option (List Text))
      (out : List Text) (db db' : P.Db) (t t' : P.Txn)
      → length ds ≡ length sizes
      → ingest_body P f ds n sizes old t ≡ (ok out, t')
      → law.seen t ≡ law.committed db
      → law.committed db' ≡ law.seen t'
      → (out ≡ []) × Applied (ingest f ds n sizes old) db db'
  ingest_ran f ds n sizes old out db db' t t' same ran before after =
      let (none_lost, counts, alive, files) = ingest_ok P law f ds n sizes old out t t' same ran in
      (
        none_lost,
        (
          λ j. rw (after, ← before) (counts j),
          λ j h. rw after (alive j (rw before h)),
          λ j. rw (after, ← before) (files j),
        ),
      )

  delete_ran :
      (f : Text) (ds out : List Text) (db db' : P.Db) (t t' : P.Txn)
      → delete_body P f ds t ≡ (ok out, t')
      → law.seen t ≡ law.committed db
      → law.committed db' ≡ law.seen t'
      → (out ≡ []) × Applied (delete f ds) db db'
  delete_ran f ds out db db' t t' ran before after =
      let (none_lost, counts, alive, files) = delete_ok P law f ds out t t' ran in
      (
        none_lost,
        (
          λ j. rw (after, ← before) (counts j ∙ omega arith),
          λ j h. rw after (alive j (rw before (omega arith))),
          λ j. rw (after, ← before) (files j),
        ),
      )

  -- A call that returns has collected no digest, and has had its whole effect.
  pub run_commit_lem :
      (c : Commit) (out : List Text) (db db' : P.Db)
      → run_commit P c db ≡ (ok out, db')
      → (out ≡ []) × Applied c db db'
  unfolding run_commit commit_ingest commit_delete
  run_commit_lem (ingest f ds n sizes old) out db db' e =
      elim (Bool-cases (not (length ds == length sizes))) [
        | inl bad ↦
            let wrong : ◌≡◌ {A = Result (List Text) × P.Db} (err _, db) (ok out, db') =
              rw bad at e in
            absurd (cc)
        | inr good ↦
            let (t, t', ran, before, after) =
              transaction_ok P law (codes "postgres commit ingest: ")
                (ingest_body P f ds n sizes old) (P.begin db) db db' out refl (rw good at e) in
            ingest_ran f ds n sizes old out db db' t t' (ground arith) ran before after
      ]
  run_commit_lem (delete f ds) out db db' e =
      let (t, t', ran, before, after) =
        transaction_ok P law (codes "postgres commit delete: ") (delete_body P f ds) (P.begin db) db
          db' out refl e in
      delete_ran f ds out db db' t t' ran before after

  -- A call that returns an error, wherever it stopped, has changed nothing in the database, or has had
  -- its whole effect there, as where only the answer to its COMMIT is lost.
  pub run_commit-IsFailure :
      (c : Commit) (db : P.Db)
      → IsFailure (run_commit P c db).0
      → ((run_commit P c db).1 ≡ db) ⊎ Applied c db (run_commit P c db).1
  unfolding run_commit commit_ingest commit_delete
  run_commit-IsFailure (ingest f ds n sizes old) db h =
      elim (Bool-cases (not (length ds == length sizes))) [
        | inl e ↦ rw e (inl refl)
        | inr e ↦
            let what = codes "postgres commit ingest: " in
            let body = ingest_body P f ds n sizes old in
            let bad : IsFailure (transaction P what body db).0 = rw e at h in
            rw e
              (elim (transaction_err P law what body db (ingest-Stays P law f ds n sizes old) bad) [
                | inl same ↦ inl same
                | inr (a, t, t', ran, before, after) ↦
                    inr (ingest_ran f ds n sizes old a db _ t t' (ground arith) ran before after).1
              ])
      ]
  run_commit-IsFailure (delete f ds) db h =
      elim (transaction_err P law _ (delete_body P f ds) db (delete-Stays P law f ds) h) [
        | inl same ↦ inl same
        | inr (a, t, t', ran, before, after) ↦ inr (delete_ran f ds a db _ t t' ran before after).1
      ]

  -- The same calls, one after the other, whether they return or fail.
  abbrev pub run_commits : List Commit → P.Db → P.Db
  run_commits [] db = db
  run_commits (c ∷ cs) db = run_commits cs (run_commit P c db).1

  pub failed_keeps :
      (c : Commit) (db db' : P.Db) (r : Result (List Text))
      → run_commit P c db ≡ (r, db')
      → IsFailure r
      → (db' ≡ db) ⊎ Applied c db db'
  failed_keeps c db db' r e h =
      let none' : IsFailure (run_commit P c db).0 = rw e h in
      subst (λ (x : P.Db). (x ≡ db) ⊎ Applied c db x) (ap (λ z. z.1) e)
        (run_commit-IsFailure c db none')

  failed_alive :
      (c : Commit) (db db' : P.Db) (d : Text)
      → (db' ≡ db) ⊎ Applied c db db'
      → 0 < count_at P law db d
      → 0 < count_at P law db' d
  failed_alive c db db' d (inl same) h = rw same h
  failed_alive c db db' d (inr applied) h = applied.1 d (omega arith)

  alive_after :
      (c : Commit) (r : Result (List Text)) (db db' : P.Db) (d : Text)
      → run_commit P c db ≡ (r, db')
      → 0 < count_at P law db d
      → 0 < count_at P law db' d
  alive_after c (ok out) db db' d e h = (run_commit_lem c out db db' e).1.1 d (omega arith)
  alive_after c (err m) db db' d e h =
      failed_alive c db db' d (failed_keeps c db db' (err m) e tt) h
  alive_after c hang db db' d e h = failed_alive c db db' d (failed_keeps c db db' hang e tt) h

  -- A digest that has a reference in the database has one for ever: no sequence of calls, whatever
  -- they are given, whether they return or fail, takes its last.
  pub run_commits-alive :
      (cs : List Commit) (db : P.Db) (d : Text)
      → 0 < count_at P law db d
      → 0 < count_at P law (run_commits cs db) d
  run_commits-alive [] db d h = h
  run_commits-alive (c ∷ cs) db d h =
      run_commits-alive cs (run_commit P c db).1 d
        (alive_after c (run_commit P c db).0 db (run_commit P c db).1 d refl h)

  -- The database records these files, and counts a digest as often as they name it.
  pub record Counted (db : P.Db) (files : Map (List Text)) : Type 0 where
    pub nodup : NodupKeys files
    pub files_lem : (f : Text) → digests_at P law db f ≡ Option.map inr (lookup f files)
    pub counts : (d : Text) → count_at P law db d ≡ named d files

  -- The digests that the caller passes for a file are those on record.
  abbrev pub Matches : Commit → Map (List Text) → Type 0
  Matches (ingest f new_digests n sizes old) files = lookup f files ≡ old
  Matches (delete f digests) files = lookup f files ≡ some digests

  abbrev pub files_after : Commit → Map (List Text) → Map (List Text)
  files_after (ingest f new_digests n sizes old) files = insert f new_digests files
  files_after (delete f digests) files = remove f files

  at_old : (d : Text) (o : Option (List Text)) → at (occurs d) o ≡ occurs d (old_list o)
  at_old d none = refl
  at_old d (some ds) = refl

  module _ (j f : Text) (ds : List Text) (files : Map (List Text)) (db : P.Db)
      (inv : Counted db files) where
    insert_at :
        (if text_eq j f then some (inr ds) else digests_at P law db j)
        ≡ Option.map {B = Text ⊎ List Text} inr (lookup j (insert f ds files))
    insert_at = elim (Bool-cases (text_eq j f)) [
      | inl e ↦ rw (lookup-insert, e) refl
      | inr e ↦ rw (lookup-insert, e) (inv.files_lem j)
    ]

    remove_at :
        (if text_eq j f then none else digests_at P law db j)
        ≡ Option.map {B = Text ⊎ List Text} inr (lookup j (remove f files))
    remove_at = elim (Bool-cases (text_eq j f)) [
      | inl e ↦ rw (lookup-remove, e) refl
      | inr e ↦ rw (lookup-remove, e) (inv.files_lem j)
    ]

  -- The effect of a call that is given what the database records for the file keeps the counts right.
  pub Applied-Counted :
      (c : Commit) (db db' : P.Db) (files : Map (List Text))
      → Counted db files
      → Matches c files
      → Applied c db db'
      → Counted db' (files_after c files)
  Applied-Counted (ingest f ds n sizes old) db db' files inv m (counts, _, seen) = record {
    nodup = insert-NodupKeys f ds files inv.nodup;
    files_lem = λ j. seen j ∙ insert_at j f ds files db inv;
    counts = λ d.
        let moved = total-insert (λ _ es. occurs d es) f ds files inv.nodup in
        let gone : at (occurs d) (lookup f files) ≡ occurs d (old_list old) = rw m (at_old d old) in
        omega (arith, counts d, inv.counts d, moved, gone);
  }
  Applied-Counted (delete f ds) db db' files inv m (counts, _, seen) = record {
    nodup = remove-NodupKeys f files inv.nodup;
    files_lem = λ j. seen j ∙ remove_at j f ds files db inv;
    counts = λ d.
        let moved = total-remove (λ _ es. occurs d es) f files inv.nodup in
        let gone : at (occurs d) (lookup f files) ≡ occurs d ds = rw m refl in
        omega (arith, counts d, inv.counts d, moved, gone);
  }

  -- A call that is given what the database records for the file, and that returns, keeps the counts
  -- right: afterwards a digest is counted as often as the files then on record name it.
  pub run_commit-Counted :
      (c : Commit) (out : List Text) (db db' : P.Db) (files : Map (List Text))
      → Counted db files
      → Matches c files
      → run_commit P c db ≡ (ok out, db')
      → Counted db' (files_after c files)
  run_commit-Counted c out db db' files inv m e =
      Applied-Counted c db db' files inv m (run_commit_lem c out db db' e).1
