-- ===== src/Postgres/Committed.antt =====
-- What the transactions of core/src/store/postgres_meta.rs have done when they end well, and when
-- they do.
use chunkstore.Base.{
  ℕ, ◌+◌, ◌<◌, ◌≡◌, ◌∙◌, refl, ap, Option, none, some, ◌⊎◌, inl, inr, List, [], arith, length,
  if◌then◌else◌, Bool-cases,
}
use chunkstore.Base.Text.{Text, codes, text_eq}
use chunkstore.Error.{Result, ok, err, hang, map_err}
use chunkstore.Exec.{Exec}
use chunkstore.Exec.Inversion.{map_err-ok, bind-ok}
use chunkstore.RefCount.Laws.{count_of}
use chunkstore.Store.Invariant.{occurs}
use chunkstore.Postgres.Server.{Server}
use chunkstore.Postgres.Rows.{
  execute, failed, increment_all, decrement_all, decrement_old, upsert_manifest, transaction,
  finish, ingest_body, delete_body,
}
use chunkstore.Postgres.Laws.{IsServer, Tables}
use chunkstore.Postgres.Counting.{execute-ok, decrement_all_lem, increment_all_lem, count_in}
use chunkstore.Postgres.Atomic.{Commit, ingest, delete}
use mathlib.Core.Option

abbrev pub old_list : Option (List Text) → List Text
old_list none = []
old_list (some old) = old

-- The digests that a call takes references to, and those that it gives back.
abbrev pub gained : Commit → List Text
gained (ingest f new_digests n sizes old) = new_digests
gained (delete f digests) = []

abbrev pub lost : Commit → List Text
lost (ingest f new_digests n sizes old) = old_list old
lost (delete f digests) = digests

module _ (P : Server) (law : IsServer P) where
  -- The count of a digest, 0 if it has no row.
  abbrev pub count_at : P.Db → Text → ℕ
  count_at db d = count_of ((law.committed db).counts d)

  -- What `manifest_digests` would read for a file.
  abbrev pub digests_seen : Tables P.Value → Text → Option (Text ⊎ List Text)
  digests_seen tables f = Option.map (λ x. P.from_value x.0) (tables.files f)

  abbrev pub digests_at : P.Db → Text → Option (Text ⊎ List Text)
  digests_at db f = digests_seen (law.committed db) f

  -- The files afterwards.
  abbrev pub digests_after : Commit → P.Db → Text → Option (Text ⊎ List Text)
  digests_after (ingest f new_digests n sizes old) db j =
      if text_eq j f then some (inr new_digests) else digests_at db j
  digests_after (delete f digests) db j = if text_eq j f then none else digests_at db j

  module _ {A : Type 0} (what : Text) where
    finish_ok :
        (r : Result A) (t : P.Txn) (a : A) (db' : P.Db)
        → finish P what (r, t) ≡ (ok a, db')
        → (r ≡ ok a) × (law.committed db' ≡ law.seen t)
    finish_ok (ok b) t a db' e = ended (P.commit t).0 (P.commit t).1 refl e
      where
        ended :
            (c : Text ⊎ Unit {0}) (db : P.Db)
            → P.commit t ≡ (c, db)
            → ◌≡◌ {A = Result A × P.Db}
                (chunkstore.Error.◌>>=◌ (map_err c (failed what)) (λ _. ok b), db)
                (ok a, db')
            → (ok b ≡ ok a) × (law.committed db' ≡ law.seen t)
        ended (inl m) db ran h = absurd (cc)
        ended (inr _) db ran h =
            let same : db ≡ db' = cc in (cc, rw (← same) (law.commit_done t db ran))
    finish_ok (err m) t a db' e = absurd (cc)
    finish_ok hang t a db' e = absurd (cc)

    -- A transaction that ended well ran its whole body on what was committed before, and what is
    -- committed now is what the body left.
    pub transaction_ok :
        (body : Exec P.Txn A) (start : Text ⊎ P.Txn) (db db' : P.Db) (a : A)
        → P.begin db ≡ start
        → transaction P what body db ≡ (ok a, db')
        → (t t' : P.Txn) × (body t ≡ (ok a, t'))
          × (law.seen t ≡ law.committed db)
          × (law.committed db' ≡ law.seen t')
    unfolding transaction
    transaction_ok body (inl m) db db' a b e =
        let bad : ◌≡◌ {A = Result A × P.Db} (err _, db) (ok a, db') = rw b at e in absurd (cc)
    transaction_ok body (inr t) db db' a b e =
        let ended : finish P what (body t) ≡ (ok a, db') = rw b at e in
        let (value, same) = finish_ok (body t).0 (body t).1 a db' ended in
        (t, (body t).1, cc, (law.begin_lem db t b).1, same)

  -- The row that the upsert leaves.
  upsert_lem :
      (f : Text) (ds : List Text) (n : ℕ) (t t' : P.Txn)
      → upsert_manifest P f ds n t ≡ (ok tt, t')
      → ((law.seen t').counts ≡ (law.seen t).counts)
        × ((j : Text)
            → digests_seen (law.seen t') j
              ≡ (if text_eq j f then some (inr ds) else digests_seen (law.seen t) j))
  unfolding upsert_manifest
  upsert_lem f ds n t t' e =
      let (v, u, encoded, ran) =
        bind-ok (λ w. (map_err (P.to_value ds) (failed (codes "postgres digest encode: ")), w))
          (λ v. execute (codes "postgres upsert manifest: ") (P.insert_manifest f v n)) t t' tt e in
      let here : t ≡ u = cc in
      let written : P.to_value ds ≡ inr v =
        map_err-ok (P.to_value ds) (failed (codes "postgres digest encode: ")) v (cc) in
      let (counts, files) =
        law.insert_manifest_lem f v n u t' (execute-ok _ (P.insert_manifest f v n) u t' tt ran) in
      (rw here counts, λ j. rw (files j, here) (after_if j f v n _ (law.value_read ds v written)))
    where
      after_if :
          (j f : Text) (v : P.Value) (n : ℕ) (o : Option (P.Value × ℕ))
          → P.from_value v ≡ inr ds
          → Option.map (λ x. P.from_value x.0) (if text_eq j f then some (v, n) else o)
            ≡ (if text_eq j f then some (inr ds) else Option.map (λ x. P.from_value x.0) o)
      after_if j f v n o h = elim (Bool-cases (text_eq j f)) [
        | inl e ↦ rw e (rw h refl)
        | inr e ↦ rw e refl
      ]

  pub delete_ok :
      (f : Text) (ds out : List Text) (t t' : P.Txn)
      → delete_body P f ds t ≡ (ok out, t')
      → (out ≡ [])
        × ((j : Text) → count_in P law t' j + occurs j ds ≡ count_in P law t j)
        × ((j : Text) → 0 < count_in P law t j → 0 < count_in P law t' j)
        × ((j : Text)
            → digests_seen (law.seen t') j
              ≡ (if text_eq j f then none else digests_seen (law.seen t) j))
  unfolding delete_body
  delete_ok f ds out t t' e =
      let (x, u, ran, rest) =
        bind-ok (execute (codes "postgres delete manifest: ") (P.delete_manifest f))
          (λ _. decrement_all P ds []) t t' out e in
      let (kept, files) =
        law.delete_manifest_lem f t u (execute-ok _ (P.delete_manifest f) t u x ran) in
      let (none_lost, counts, alive, files') = decrement_all_lem P law ds [] out u t' rest in
      (
        none_lost,
        λ j. counts j ∙ ap (λ g. count_of (g j)) kept,
        λ j h. alive j (rw kept h),
        λ j. ap (λ g. Option.map (λ x. P.from_value x.0) (g j)) files' ∙ rw (files j) (map_if j),
      )
    where
      map_if :
          (j : Text)
          → Option.map {A = P.Value × ℕ}
              (λ x. P.from_value x.0)
              (if text_eq j f then none else (law.seen t).files j)
            ≡ (if text_eq j f then none else digests_seen (law.seen t) j)
      map_if j = elim (Bool-cases (text_eq j f)) [ inl e ↦ rw e refl | inr e ↦ rw e refl ]

  old_lem :
      (old : Option (List Text)) (out : List Text) (t t' : P.Txn)
      → decrement_old P old t ≡ (ok out, t')
      → (out ≡ [])
        × ((j : Text) → count_in P law t' j + occurs j (old_list old) ≡ count_in P law t j)
        × ((j : Text) → 0 < count_in P law t j → 0 < count_in P law t' j)
        × ((law.seen t').files ≡ (law.seen t).files)
  unfolding decrement_old
  old_lem none out t t' e =
      let same : t ≡ t' = cc in (cc, λ j. rw same (omega arith), λ j h. rw (← same) h, rw same refl)
  old_lem (some ds) out t t' e = decrement_all_lem P law ds [] out t t' e

  pub ingest_ok :
      (f : Text) (ds : List Text) (n : ℕ) (sizes : List ℕ) (old : Option (List Text))
      (out : List Text) (t t' : P.Txn)
      → length ds ≡ length sizes
      → ingest_body P f ds n sizes old t ≡ (ok out, t')
      → (out ≡ [])
        × ((j : Text)
            → count_in P law t' j + occurs j (old_list old) ≡ count_in P law t j + occurs j ds)
        × ((j : Text) → 0 < count_in P law t j + occurs j ds → 0 < count_in P law t' j)
        × ((j : Text)
            → digests_seen (law.seen t') j
              ≡ (if text_eq j f then some (inr ds) else digests_seen (law.seen t) j))
  unfolding ingest_body
  ingest_ok f ds n sizes old out t t' same e =
      let (_, u, ran, rest) = bind-ok (increment_all P ds sizes) _ t t' out e in
      let (_, w, put, rest') =
        bind-ok (upsert_manifest P f ds n) (λ _. decrement_old P old) u t' out rest in
      let (more, files) = increment_all_lem P law ds sizes t u same ran in
      let (kept, files') = upsert_lem f ds n u w put in
      let (none_lost, less, alive, files'') = old_lem old out w t' rest' in
      (
        none_lost,
        λ j. less j ∙ (ap (λ g. count_of (g j)) kept ∙ more j),
        λ j h. alive j (rw kept (omega (arith, more j))),
        λ j.
            ap (λ g. Option.map (λ x. P.from_value x.0) (g j)) files''
            ∙ (files' j
                ∙ ap
                    (λ g.
                      if text_eq j f
                      then some (inr ds)
                      else Option.map (λ x. P.from_value x.0) (g j))
                    files),
      )
