-- ===== src/Postgres/Succeeding.antt =====
-- When `commit_ingest` and `commit_delete` of core/src/store/postgres_meta.rs return, on a database
-- that refuses only what its constraints forbid.
use chunkstore.Base.{
  ℕ, ◌+◌, ◌<◌, ◌≡◌, ◌↔◌, refl, ◌==◌, not, false, Option, none, some, ◌⊎◌, inl, inr, List, [], ◌∷◌,
  arith, length, Bool-cases, All,
}
use chunkstore.Base.Text.{Text, text_eq, text_eq_refl}
use chunkstore.Error.{Result, ok, err, hang}
use chunkstore.Exec.{Exec}
use chunkstore.Store.Invariant.{occurs}
use chunkstore.Postgres.Server.{Server}
use chunkstore.Postgres.Rows.{
  after_update, decrement_refcount, increment_refcount, increment_all, decrement_all, decrement_old,
  push_if, upsert_manifest, transaction, ingest_body, delete_body, commit_ingest, commit_delete,
}
use chunkstore.Postgres.Laws.{IsServer, IsUp, bigint_end}
use chunkstore.Postgres.Counting.{count_in, increment_all_lem, updated_lem}
use chunkstore.Postgres.Atomic.{Commit, run_commit, ingest, delete}
use chunkstore.Postgres.Committed.{count_at, gained, lost, old_list}
use chunkstore.Postgres.Effects.{run_commit_lem}

-- `Ok(..)` is the answer.
abbrev pub IsOk {ℓ} : {A : Type ℓ} → Result A → Type 0
IsOk (ok a) = Unit
IsOk (err e) = ⊥
IsOk hang = ⊥

occurs-All : (P : Text → Type 0) (ds : List Text) (d : Text) → All P ds → (occurs d ds ≡ 0) ⊎ P d
occurs-All P [] d h = inl refl
occurs-All P (e ∷ ds) d h = elim (Bool-cases (text_eq d e)) [
  | inl same ↦ let here : d ≡ e = ground arith in inr (rw here h.0)
  | inr other ↦ elim (occurs-All P ds d h.1) [
    | inl z ↦ inl (rw other (omega arith))
    | inr p ↦ inr p
  ]
]

All-occurs : (P : Text → Type 0) (ds : List Text) → ((d : Text) → 0 < occurs d ds → P d) → All P ds
All-occurs P [] h = tt
All-occurs P (e ∷ ds) h =
    (h e (rw text_eq_refl (omega arith)), All-occurs P ds (λ d o. h d (omega arith)))

module _ (P : Server) (law : IsServer P) (up : IsUp P law) where
  -- The loop over old digests gets through when no count runs out.
  decrement_all_up :
      (ds gc : List Text) (t : P.Txn)
      → ((d : Text) → (occurs d ds ≡ 0) ⊎ (occurs d ds < count_in P law t d))
      → (out : List Text) × (t' : P.Txn) × (decrement_all P ds gc t ≡ (ok out, t'))
  unfolding decrement_all decrement_refcount after_update
  decrement_all_up [] gc t h = (gc, t, refl)
  decrement_all_up (d ∷ ds) gc t h =
      let (c, u, ran) = up.updates d t (ground (arith, h d, text_eq_refl d)) in
      let (sign, pos, more, at, files) = updated_lem P law d t u c ran in
      let (out, t', rest) =
        decrement_all_up ds (push_if (c == 0) d gc) u λ j. ground (arith, h j, at j, more, pos) in
      (out, t', rw (ran, sign) rest)

  increment_all_up :
      (ds : List Text) (sizes : List ℕ) (t : P.Txn)
      → length ds ≡ length sizes
      → All (λ n. n < bigint_end) sizes
      → ((d : Text) → count_in P law t d + occurs d ds < bigint_end)
      → (t' : P.Txn) × (increment_all P ds sizes t ≡ (ok tt, t'))
  unfolding increment_all increment_refcount
  increment_all_up [] sizes t same small h = (t, refl)
  increment_all_up (d ∷ ds) [] t same small h = absurd (omega arith)
  increment_all_up (d ∷ ds) (n ∷ sizes) t same small h =
      let (c, u, ran) = up.inserts d n t (ground (arith, h d, text_eq_refl d)) small.0 in
      let (value, at, files) = law.insert_refcount_lem d n t u c ran in
      let (t', rest) =
        increment_all_up ds sizes u (omega arith) small.1 λ j. ground (arith, h j, at j, value) in
      (t', rw ran rest)

  ingest_up :
      (f : Text) (ds : List Text) (n : ℕ) (sizes : List ℕ) (old : Option (List Text)) (t : P.Txn)
      → length ds ≡ length sizes
      → All (λ n. n < bigint_end) sizes
      → ((d : Text) → count_in P law t d + occurs d ds < bigint_end)
      → ((d : Text)
          → (occurs d (old_list old) ≡ 0)
            ⊎ (occurs d (old_list old) < count_in P law t d + occurs d ds))
      → (out : List Text) × (t' : P.Txn) × (ingest_body P f ds n sizes old t ≡ (ok out, t'))
  unfolding ingest_body upsert_manifest
  ingest_up f ds n sizes old t same small fits h =
      let (u, ran) = increment_all_up ds sizes t same small fits in
      let (more, files) = increment_all_lem P law ds sizes t u same ran in
      let (v, encoded) = up.encodes ds in
      let (w, put) = up.inserts_manifest f v n u in
      let (kept, files') = law.insert_manifest_lem f v n u w put in
      let (out, t', rest) = old_up old w λ d. ground (arith, h d, more d, counts d u w kept) in
      (out, t', rw (ran, encoded, put) rest)
    where
      counts :
          (d : Text) (u w : P.Txn)
          → (law.seen w).counts ≡ (law.seen u).counts
          → count_in P law w d ≡ count_in P law u d
      counts d u w e = rw e refl

      old_up :
          (old : Option (List Text)) (w : P.Txn)
          → ((d : Text)
              → (occurs d (old_list old) ≡ 0) ⊎ (occurs d (old_list old) < count_in P law w d))
          → (out : List Text) × (t' : P.Txn) × (decrement_old P old w ≡ (ok out, t'))
      old_up none w h = ([], w, unfold decrement_old in refl)
      old_up (some o) w h = unfold decrement_old in decrement_all_up o [] w h

  delete_up :
      (f : Text) (ds : List Text) (t : P.Txn)
      → ((d : Text) → (occurs d ds ≡ 0) ⊎ (occurs d ds < count_in P law t d))
      → (out : List Text) × (t' : P.Txn) × (delete_body P f ds t ≡ (ok out, t'))
  unfolding delete_body
  delete_up f ds t h =
      let (w, gone) = up.deletes_manifest f t in
      let (kept, files) = law.delete_manifest_lem f t w gone in
      let (out, t', rest) = decrement_all_up ds [] w λ d. rw kept (h d) in (out, t', rw gone rest)

  transaction_up :
      {A : Type 0} (what : Text) (body : Exec P.Txn A) (db : P.Db)
      → ((t : P.Txn)
          → law.seen t ≡ law.committed db
          → (a : A) × (t' : P.Txn) × (body t ≡ (ok a, t')))
      → IsOk (transaction P what body db).0
  unfolding transaction
  transaction_up what body db h =
      let (t, b) = up.begins db in
      let (a, t', ran) = h t (law.begin_lem db t b).1 in
      let (db', done) = up.commits t' in rw (b, ran, done) tt

  -- The arguments fit the tables: one size for each digest, and no size and no count too large for
  -- a BIGINT.
  abbrev pub Fits : Commit → P.Db → Type 0
  Fits (ingest f ds n sizes old) db =
      (length ds ≡ length sizes)
      × All (λ n. n < bigint_end) sizes
      × ((d : Text) → count_at P law db d + occurs d ds < bigint_end)
  Fits (delete f ds) db = Unit

  -- Some reference to every digest is left when the call has given back what it gives back.
  abbrev pub Spared : Commit → P.Db → Type 0
  Spared c db = All (λ d. occurs d (lost c) < count_at P law db d + occurs d (gained c)) (lost c)

  Spared-IsOk : (c : Commit) (db : P.Db) → Fits c db → Spared c db → IsOk (run_commit P c db).0
  unfolding run_commit commit_ingest commit_delete
  Spared-IsOk (ingest f ds n sizes old) db (same, small, fits) h =
      let equal : not (length ds == length sizes) ≡ false = ground arith in
      rw equal (
        transaction_up _ (ingest_body P f ds n sizes old) db λ t seen.
          ingest_up f ds n sizes old t same small (λ d. rw seen (fits d))
            (λ d. rw seen (occurs-All _ (old_list old) d h)))
  Spared-IsOk (delete f ds) db u h =
      transaction_up _ (delete_body P f ds) db
        λ t seen. delete_up f ds t λ d. rw seen (strip d (occurs-All _ ds d h))
    where
      strip :
          (d : Text)
          → (occurs d ds ≡ 0) ⊎ (occurs d ds < count_at P law db d + 0)
          → (occurs d ds ≡ 0) ⊎ (occurs d ds < count_at P law db d)
      strip d (inl z) = inl z
      strip d (inr p) = inr (omega arith)

  IsOk-Spared :
      (c : Commit) (db db' : P.Db) (r : Result (List Text))
      → run_commit P c db ≡ (r, db')
      → IsOk r
      → Spared c db
  IsOk-Spared c db db' (ok out) e h =
      let (_, (counts, alive, _)) = run_commit_lem P law c out db db' e in
      All-occurs _ (lost c) λ d o. omega (arith, counts d, alive d (omega (arith, counts d)))
  IsOk-Spared c db db' (err m) e h = absurd h
  IsOk-Spared c db db' hang e h = absurd h

  -- On a database that answers, and with arguments that fit it, a call returns exactly when every
  -- digest that it gives back keeps a reference: a call that would take the last one fails.
  pub run_commit-IsOk :
      (c : Commit) (db : P.Db) → Fits c db → IsOk (run_commit P c db).0 ↔ Spared c db
  run_commit-IsOk c db fits =
      (IsOk-Spared c db (run_commit P c db).1 (run_commit P c db).0 refl, Spared-IsOk c db fits)
