-- ===== src/Postgres/Counting.antt =====
-- The loops of core/src/store/postgres_meta.rs over digests: what they do to the tables when they
-- end well. No loop stays inside a transaction that fails.
use chunkstore.Base.{
  ℕ, suc, ◌+◌, ◌<◌, ◌≡◌, ◌∙◌, refl, sym, ap, ◌==◌, false, Option, none, some, List, [], ◌∷◌, arith,
  length, inr, if◌then◌else◌, ◌^◌, leb, ◌||◌,
}
use chunkstore.Base.Text.{Text, text_eq, text_eq_refl, codes}
use chunkstore.Error.{Result, ok}
use chunkstore.Exec.Inversion.{map_err-ok, bind-ok}
use chunkstore.RefCount.Laws.{count_of}
use chunkstore.Store.Invariant.{occurs}
use chunkstore.Postgres.Server.{Server, Execute}
use chunkstore.Postgres.Rows.{
  execute, failed, not_positive, after_update, increment_refcount, decrement_refcount,
  increment_all, decrement_all, push_if,
}
use chunkstore.Postgres.Laws.{IsServer, bigint_end}

pub execute-ok :
    {S A : Type 0} (what : Text) (q : Execute S A) (s t : S) (a : A)
    → execute what q s ≡ (ok a, t)
    → q s ≡ (chunkstore.Base.inr a, t)
execute-ok what q s t a e =
    let first : (q s).0 ≡ chunkstore.Base.inr a = map_err-ok (q s).0 (failed what) a (cc) in cc

pub positive_count : (c : ℕ) → 0 < c → c < bigint_end → not_positive c ≡ false
positive_count c p q = ground arith

module _ (P : Server) (law : IsServer P) where
  abbrev pub count_in : P.Txn → Text → ℕ
  count_in t d = count_of ((law.seen t).counts d)

  -- What a success of the UPDATE says: a row was there, and a count that is still positive.
  pub updated_lem :
      (d : Text) (t u : P.Txn) (n : ℕ)
      → P.update_refcount d t ≡ (inr (some n), u)
      → (not_positive n ≡ false)
        × (0 < n)
        × (count_in t d ≡ suc n)
        × ((j : Text) → count_in u j ≡ (if text_eq j d then n else count_in t j))
        × ((law.seen u).files ≡ (law.seen t).files)
  updated_lem d t u n e =
      let (r, found, more, at, files) = law.update_refcount_some d t u n e in
      let here : (law.seen u).counts d ≡ some (record r { count = n }) =
        ground (arith, at d, text_eq_refl d) in
      let (pos, bound) = law.count_checked u d (record r { count = n }) here in
      (positive_count n pos bound, pos, rw found more, λ j. ground (arith, at j), files)

  after_lem :
      (d : Text) (t u t' : P.Txn) (row : Option ℕ) (c : ℕ)
      → P.update_refcount d t ≡ (inr row, u)
      → after_update P d row u ≡ (ok c, t')
      → (0 < c)
        × (count_in t d ≡ suc c)
        × ((j : Text) → count_in t' j ≡ (if text_eq j d then c else count_in t j))
        × ((law.seen t').files ≡ (law.seen t).files)
  unfolding after_update
  after_lem d t u t' none c ran e = absurd (cc)
  after_lem d t u t' (some n) c ran e =
      let (sign, pos, more, at, files) = updated_lem d t u n ran in
      let same : ◌≡◌ {A = Result ℕ × P.Txn} (ok n, u) (ok c, t') = rw sign at e in
      let value : n ≡ c = cc in
      let txn : u ≡ t' = cc in
      (rw (← value) pos, rw (← value) more, λ j. rw (← value, ← txn) (at j), rw (← txn) files)

  -- A success of the UPDATE has left a positive count, so the row stays and no 0 is returned.
  pub decrement_lem :
      (d : Text) (t t' : P.Txn) (c : ℕ)
      → decrement_refcount P d t ≡ (ok c, t')
      → (0 < c)
        × (count_in t d ≡ suc c)
        × ((j : Text) → count_in t' j ≡ (if text_eq j d then c else count_in t j))
        × ((law.seen t').files ≡ (law.seen t).files)
  unfolding decrement_refcount
  decrement_lem d t t' c e =
      let (row, u, ran, rest) =
        bind-ok (execute (codes "postgres decrement: ") (P.update_refcount d)) (after_update P d) t
          t' c e in
      after_lem d t u t' row c (execute-ok _ (P.update_refcount d) t u row ran) rest

  -- The loop over old digests: each count falls by the times that its digest is listed and stays
  -- positive, and none is collected.
  pub decrement_all_lem :
      (ds gc out : List Text) (t t' : P.Txn)
      → decrement_all P ds gc t ≡ (ok out, t')
      → (out ≡ gc)
        × ((j : Text) → count_in t' j + occurs j ds ≡ count_in t j)
        × ((j : Text) → 0 < count_in t j → 0 < count_in t' j)
        × ((law.seen t').files ≡ (law.seen t).files)
  unfolding decrement_all
  decrement_all_lem [] gc out t t' e =
      let same : t ≡ t' = cc in (cc, λ j. rw same (omega arith), λ j h. rw (← same) h, rw same refl)
  decrement_all_lem (d ∷ ds) gc out t t' e =
      let (c, u, ran, rest) =
        bind-ok (decrement_refcount P d) (λ c. decrement_all P ds (push_if (c == 0) d gc)) t t' out
          e in
      let (pos, more, at, files) = decrement_lem d t u c ran in
      let kept : push_if (c == 0) d gc ≡ gc = ground arith in
      let (none_lost, counts, alive, files') =
        decrement_all_lem ds (push_if (c == 0) d gc) out u t' rest in
      (
        none_lost ∙ kept,
        λ j. ground (arith, counts j, at j),
        λ j h. alive j (ground (arith, at j)),
        files' ∙ files,
      )

  -- The loop over new digests: each count grows by the times that its digest is listed.
  pub increment_all_lem :
      (ds : List Text) (sizes : List ℕ) (t t' : P.Txn)
      → length ds ≡ length sizes
      → increment_all P ds sizes t ≡ (ok tt, t')
      → ((j : Text) → count_in t' j ≡ count_in t j + occurs j ds)
        × ((law.seen t').files ≡ (law.seen t).files)
  unfolding increment_all increment_refcount
  increment_all_lem [] sizes t t' same e =
      let here : t ≡ t' = cc in (λ j. rw here (omega arith), rw here refl)
  increment_all_lem (d ∷ ds) [] t t' same e = absurd (omega arith)
  increment_all_lem (d ∷ ds) (n ∷ sizes) t t' same e =
      let (c, u, ran, rest) =
        bind-ok (increment_refcount P d n) (λ _. increment_all P ds sizes) t t' tt e in
      let (more, at, files) =
        law.insert_refcount_lem d n t u c (execute-ok _ (P.insert_refcount d n) t u c ran) in
      let (counts, files') = increment_all_lem ds sizes u t' (omega arith) rest in
      (λ j. ground (arith, counts j, at j), files' ∙ files)
