-- ===== src/Postgres/Atomic.antt =====
-- The transactions of core/src/store/postgres_meta.rs take effect as a whole or not at all.
use chunkstore.Base.{
  ℕ, ◌≡◌, ◌∙◌, refl, ◌==◌, Option, none, some, ◌⊎◌, inl, inr, List, [], ◌∷◌, Bool-cases,
}
use chunkstore.Base.Text.{Text, codes}
use chunkstore.Error.{Result, ok, err, hang, ChunkStoreError, map_err}
use chunkstore.Exec.{Exec}
use chunkstore.Exec.Inversion.{bind-keeps, IsFailure}
use chunkstore.Postgres.Server.{Server}
use chunkstore.Postgres.Rows.{
  execute, failed, not_positive, after_update, increment_refcount, decrement_refcount,
  increment_all, decrement_all, push_if, decrement_old, upsert_manifest, transaction, finish,
  ingest_body, delete_body, commit_ingest, commit_delete,
}
use chunkstore.Postgres.Laws.{IsServer}

-- A call that changes the database, with its arguments.
pub data Commit : Type 0 where
  ingest : Text → List Text → ℕ → List ℕ → Option (List Text) → Commit
  delete : Text → List Text → Commit

unfoldable pub run_commit : (P : Server) → Commit → Exec P.Db (List Text)
run_commit P (ingest f new_digests n sizes old) = commit_ingest P f new_digests n sizes old
run_commit P (delete f digests) = commit_delete P f digests

module _ (P : Server) (law : IsServer P) where
  -- A part of a transaction's body stays inside the transaction.
  abbrev pub Stays : {A : Type 0} → Exec P.Txn A → Type 0
  Stays m = (t : P.Txn) → law.base (m t).1 ≡ law.base t

  after_update-Stays : (d : Text) (row : Option ℕ) → Stays (after_update P d row)
  unfolding after_update
  after_update-Stays d none t = refl
  after_update-Stays d (some n) t = elim (Bool-cases (not_positive n)) [
    | inl e ↦ rw e (
        bind-keeps law.base (execute (codes "postgres delete refcount: ") (P.delete_refcount d))
          (λ _ u. (ok 0, u)) t (law.delete_refcount_base d t) (λ _ u. refl))
    | inr e ↦ rw e refl
  ]

  decrement-Stays : (d : Text) → Stays (decrement_refcount P d)
  unfolding decrement_refcount
  decrement-Stays d t =
      bind-keeps law.base (execute (codes "postgres decrement: ") (P.update_refcount d))
        (after_update P d) t (law.update_refcount_base d t) (after_update-Stays d)

  decrement_all-Stays : (ds gc : List Text) → Stays (decrement_all P ds gc)
  unfolding decrement_all
  decrement_all-Stays [] gc t = refl
  decrement_all-Stays (d ∷ ds) gc t =
      bind-keeps law.base (decrement_refcount P d) (λ c. decrement_all P ds (push_if (c == 0) d gc))
        t (decrement-Stays d t) (λ c. decrement_all-Stays ds (push_if (c == 0) d gc))

  increment_all-Stays : (ds : List Text) (sizes : List ℕ) → Stays (increment_all P ds sizes)
  unfolding increment_all increment_refcount
  increment_all-Stays [] sizes t = refl
  increment_all-Stays (d ∷ ds) [] t = refl
  increment_all-Stays (d ∷ ds) (n ∷ sizes) t =
      bind-keeps law.base (increment_refcount P d n) (λ _. increment_all P ds sizes) t
        (law.insert_refcount_base d n t) (λ _. increment_all-Stays ds sizes)

  upsert-Stays : (f : Text) (ds : List Text) (n : ℕ) → Stays (upsert_manifest P f ds n)
  unfolding upsert_manifest
  upsert-Stays f ds n t =
      bind-keeps law.base
        (λ u. (map_err (P.to_value ds) (failed (codes "postgres digest encode: ")), u))
        (λ v. execute (codes "postgres upsert manifest: ") (P.insert_manifest f v n)) t refl
        (λ v u. law.insert_manifest_base f v n u)

  old-Stays : (old : Option (List Text)) → Stays (decrement_old P old)
  unfolding decrement_old
  old-Stays none t = refl
  old-Stays (some ds) t = decrement_all-Stays ds [] t

  pub ingest-Stays :
      (f : Text) (ds : List Text) (n : ℕ) (sizes : List ℕ) (old : Option (List Text))
      → Stays (ingest_body P f ds n sizes old)
  unfolding ingest_body
  ingest-Stays f ds n sizes old t =
      bind-keeps law.base (increment_all P ds sizes) _ t (increment_all-Stays ds sizes t) λ _ u.
        bind-keeps law.base (upsert_manifest P f ds n) (λ _. decrement_old P old) u
          (upsert-Stays f ds n u) (λ _. old-Stays old)

  pub delete-Stays : (f : Text) (ds : List Text) → Stays (delete_body P f ds)
  unfolding delete_body
  delete-Stays f ds t =
      bind-keeps law.base (execute (codes "postgres delete manifest: ") (P.delete_manifest f))
        (λ _. decrement_all P ds []) t (law.delete_manifest_base f t)
        (λ _. decrement_all-Stays ds [])

  -- The body ran to its end on what was committed in the one database, and what it left is
  -- committed in the other.
  abbrev pub Ran : {A : Type 0} → Exec P.Txn A → P.Db → P.Db → Type 0
  Ran {A} body db db' =
      (a : A) × (t : P.Txn) × (t' : P.Txn) × (body t ≡ (ok a, t'))
      × (law.seen t ≡ law.committed db)
      × (law.committed db' ≡ law.seen t')

  module _ {A : Type 0} (what : Text) where
    -- A failed commit, or none at all.
    commit_err :
        (r : Text ⊎ Unit {0}) (a : A) (t : P.Txn) (db : P.Db)
        → P.commit t ≡ (r, db)
        → IsFailure (chunkstore.Error.◌>>=◌ (map_err r (failed what)) (λ _. ok a))
        → (db ≡ law.base t) ⊎ (law.committed db ≡ law.seen t)
    commit_err (inl m) a t db e h = law.commit_failed t m db e
    commit_err (inr _) a t db e h = absurd h

    -- The body's result, and whether its effects can be there.
    finish_err :
        (r : Result A) (t : P.Txn)
        → IsFailure (finish P what (r, t)).0
        → ((finish P what (r, t)).1 ≡ law.base t)
          ⊎ ((a : A) × (r ≡ ok a) × (law.committed (finish P what (r, t)).1 ≡ law.seen t))
    finish_err (ok a) t h = elim (commit_err (P.commit t).0 a t (P.commit t).1 refl h) [
      | inl undone ↦ inl undone
      | inr lost ↦ inr (a, refl, lost)
    ]
    finish_err (err e) t h = inl (law.rollback_lem t)
    finish_err hang t h = inl (law.rollback_lem t)

    begun_err :
        (body : Exec P.Txn A) (start : Text ⊎ P.Txn) (db : P.Db)
        → P.begin db ≡ start
        → Stays body
        → IsFailure (transaction P what body db).0
        → ((transaction P what body db).1 ≡ db) ⊎ Ran body db (transaction P what body db).1
    unfolding transaction
    begun_err body (inl m) db e stays h = rw e (inl refl)
    begun_err body (inr t) db e stays h =
        let failed' : IsFailure (finish P what (body t)).0 = rw e at h in
        let (base, seen) = law.begin_lem db t e in
        rw e (elim (finish_err (body t).0 (body t).1 failed') [
          | inl undone ↦ inl (undone ∙ (stays t ∙ base))
          | inr (a, ended, lost) ↦ inr (a, t, (body t).1, cc, seen, lost)
        ])

    pub transaction_err :
        (body : Exec P.Txn A) (db : P.Db)
        → Stays body
        → IsFailure (transaction P what body db).0
        → ((transaction P what body db).1 ≡ db) ⊎ Ran body db (transaction P what body db).1
    transaction_err body db stays h = begun_err body (P.begin db) db refl stays h
