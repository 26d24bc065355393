-- ===== src/Example/Tables/Laws.antt =====
-- The database of Example.Tables meets the laws of Postgres.
use chunkstore.Base.{
  ℕ, suc, ◌-◌, ◌<◌, ◌≡◌, ◌∙◌, refl, ap, map, is_some, ◌&&◌, ltb, Bool-cases, true, if◌then◌else◌,
  Option, none, some, ◌⊎◌, inl, inr, List, [], ◌∷◌, arith,
}
use chunkstore.Base.Text.{Text, text_eq}
use chunkstore.Base.Map.{Map, lookup, insert, remove, lookup-insert, lookup-remove}
use chunkstore.RefCount.{ChunkRef}
use chunkstore.Backend.Lawful.{contains}
use chunkstore.Postgres.Server.{RefCountRow}
use chunkstore.RefCount.Laws.{count_of}
use chunkstore.Postgres.Laws.{IsServer, IsUp, size_in, bigint_end, Has}
use chunkstore.Example.Tables.{
  Contents, Open, valid, tables, refused, put_row, insert_row, update_found, manifest_rows,
  refcount_rows, server,
}

valid_allowed :
    (o : Option ChunkRef) (r : ChunkRef) → valid o ≡ some r → (0 < r.count) × (r.count < bigint_end)
valid_allowed none r e = absurd (cc)
valid_allowed (some s) r e = ground arith

-- After a row has been put, the tables show it.
put_lem :
    (d : Text) (r : ChunkRef) (t : Open) (j : Text)
    → 0 < r.count
    → r.count < bigint_end
    → valid (lookup j (insert d r t.now.counts))
      ≡ (if text_eq j d then some r else valid (lookup j t.now.counts))
put_lem d r t j p q = elim (Bool-cases (text_eq j d)) [
  | inl e ↦ rw (lookup-insert, e) (ground arith)
  | inr e ↦ rw (lookup-insert, e) refl
]

insert_base : (d : Text) (n : ℕ) (t : Open) → (insert_row d n t).1.start ≡ t.start
insert_base d n t =
    elim (Bool-cases
      (ltb (suc (count_of (valid (lookup d t.now.counts)))) bigint_end && ltb n bigint_end)) [
        | inl e ↦ rw e refl
        | inr e ↦ rw e refl
      ]

update_base : (d : Text) (o : Option ChunkRef) (t : Open) → (update_found d o t).1.start ≡ t.start
update_base d none t = refl
update_base d (some r) t = elim (Bool-cases (ltb 1 r.count)) [
  | inl e ↦ rw e refl
  | inr e ↦ rw e refl
]

insert_lem :
    (d : Text) (n : ℕ) (t t' : Open) (c : ℕ)
    → insert_row d n t ≡ (inr c, t')
    → (c ≡ suc (count_of (valid (lookup d t.now.counts))))
      × ((j : Text)
          → valid (lookup j t'.now.counts) ≡ (
              if text_eq j d
              then some (record { count = c; size = size_in (valid (lookup d t.now.counts)) n })
              else valid (lookup j t.now.counts)))
      × ((tables t'.now).files ≡ (tables t.now).files)
insert_lem d n t t' c e =
    let old = valid (lookup d t.now.counts) in
    elim (Bool-cases (ltb (suc (count_of old)) bigint_end && ltb n bigint_end)) [
      | inl fits ↦
          let row : ChunkRef = record { count = suc (count_of old); size = size_in old n } in
          let done : ◌≡◌ {A = (Text ⊎ ℕ) × Open} (inr (suc (count_of old)), put_row d row t)
              (inr c, t') =
            rw fits at e in
          let value : suc (count_of old) ≡ c = cc in
          let after : put_row d row t ≡ t' = cc in
          (
            rw (← value) refl,
            λ j. rw (← value, ← after) (put_lem d row t j (omega arith) (ground arith)),
            rw (← after) refl,
          )
      | inr bad ↦
          let wrong : ◌≡◌ {A = (Text ⊎ ℕ) × Open} (inl refused, t) (inr c, t') = rw bad at e in
          absurd (cc)
    ]

update_lem :
    (d : Text) (t t' : Open) (c : ℕ) (o : Option ChunkRef)
    → valid (lookup d t.now.counts) ≡ o
    → update_found d o t ≡ (inr (some c), t')
    → (r : ChunkRef) × (valid (lookup d t.now.counts) ≡ some r)
      × (r.count ≡ suc c)
      × ((j : Text)
          → valid (lookup j t'.now.counts) ≡ (
              if text_eq j d then some (record r { count = c }) else valid (lookup j t.now.counts)))
      × ((tables t'.now).files ≡ (tables t.now).files)
update_lem d t t' c none found e = absurd (cc)
update_lem d t t' c (some r) found e = elim (Bool-cases (ltb 1 r.count)) [
  | inl more ↦
      let row : ChunkRef = record r { count = r.count - 1 } in
      let done : ◌≡◌ {A = (Text ⊎ Option ℕ) × Open} (inr (some (r.count - 1)), put_row d row t)
          (inr (some c), t') =
        rw more at e in
      let value : r.count - 1 ≡ c = cc in
      let after : put_row d row t ≡ t' = cc in
      let bound = valid_allowed (lookup d t.now.counts) r found in
      (
        r,
        found,
        ground arith,
        λ j. rw (← value, ← after) (put_lem d row t j (ground arith) (omega arith)),
        rw (← after) refl,
      )
  | inr last ↦
      let wrong : ◌≡◌ {A = (Text ⊎ Option ℕ) × Open} (inl refused, t) (inr (some c), t') =
        rw last at e in
      absurd (cc)
]

rows_lem :
    (m : Map (List Text × ℕ)) (f : Text) (v : List Text) (n : ℕ)
    → lookup f m ≡ some (v, n)
    → Has f v n (manifest_rows m)
unfolding lookup
rows_lem [] f v n e = absurd (cc)
rows_lem ((g, (w, k)) ∷ m) f v n e = elim (Bool-cases (text_eq f g)) [
  | inl same ↦
      let key : f ≡ g = ground arith in
      let entry : ◌≡◌ {A = List Text × ℕ} (w, k) (v, n) = ground arith in
      let list : w ≡ v = ap (λ x. x.0) entry in
      let size : k ≡ n = ap (λ x. x.1) entry in inl (rw (key, list, size) refl)
  | inr other ↦ inr (rows_lem m f v n (ground arith))
]

refcount_rows_lem :
    (whole m : Map ChunkRef) (d : Text)
    → contains d (map (λ (row : RefCountRow). row.digest) (refcount_rows whole m))
      ≡ (is_some (lookup d m) && ltb 0 (count_of (valid (lookup d whole))))
unfolding lookup
refcount_rows_lem whole [] d = refl
refcount_rows_lem whole ((k, r) ∷ m) d =
    elim (Bool-cases (ltb 0 (count_of (valid (lookup k whole))))) [
      | inl shown ↦ ground (arith, shown, refcount_rows_lem whole m d)
      | inr hidden ↦ ground (arith, hidden, refcount_rows_lem whole m d)
    ]

counted_some :
    (o : Option ChunkRef) → (is_some o && ltb 0 (count_of (valid o))) ≡ ltb 0 (count_of (valid o))
counted_some none = refl
counted_some (some r) = refl

pub server-IsServer : IsServer server
server-IsServer = record {
  committed = tables;
  seen = λ t. tables t.now;
  base = λ t. t.start;
  count_checked = λ t d r e. valid_allowed (lookup d t.now.counts) r e;
  begin_lem = λ db t e.
      let same : record { start = db; now = db } ≡ t = cc in (rw (← same) refl, rw (← same) refl);
  rollback_lem = λ t. refl;
  commit_done = λ t db e. let same : t.now ≡ db = cc in rw same refl;
  commit_failed = λ t m db e. absurd (cc);
  insert_refcount_base = insert_base;
  insert_refcount_lem = insert_lem;
  update_refcount_base = λ d t. update_base d (valid (lookup d t.now.counts)) t;
  update_refcount_some = λ d t t' c e. update_lem d t t' c (valid (lookup d t.now.counts)) refl e;
  delete_refcount_base = λ d t. refl;
  insert_manifest_base = λ f v n t. refl;
  insert_manifest_lem = λ f v n t t' e.
      let same : record t { now = record t.now { files = insert f (v, n) t.now.files } } ≡ t' =
        cc in
      (rw (← same) refl, λ j. rw (← same) (lookup-insert j f (v, n) t.now.files));
  delete_manifest_base = λ f t. refl;
  delete_manifest_lem = λ f t t' e.
      let same : record t { now = record t.now { files = remove f t.now.files } } ≡ t' = cc in
      (rw (← same) refl, λ j. rw (← same) (lookup-remove j f t.now.files));
  select_digests_lem = λ f db o e. cc;
  select_manifests_lem = λ db rows f v n e h.
      let same : manifest_rows db.files ≡ rows = cc in rw (← same) (rows_lem db.files f v n h);
  select_refcounts_lem = λ db rows d e.
      let same : refcount_rows db.counts db.counts ≡ rows = cc in
      rw (← same) (refcount_rows_lem db.counts db.counts d ∙ counted_some (lookup d db.counts));
  value_read = λ l v e. let same : l ≡ v = cc in rw same refl;
}

pub committed_lem : (db : Contents) → server-IsServer.committed db ≡ tables db
unfolding server-IsServer
committed_lem db = refl

insert_up :
    (d : Text) (n : ℕ) (t : Open)
    → suc (count_of (valid (lookup d t.now.counts))) < bigint_end
    → n < bigint_end
    → (c : ℕ) × (t' : Open) × (insert_row d n t ≡ (inr c, t'))
insert_up d n t p q =
    let fits : (ltb (suc (count_of (valid (lookup d t.now.counts)))) bigint_end && ltb n bigint_end)
        ≡ true =
      ground arith in
    let c = suc (count_of (valid (lookup d t.now.counts))) in
    let row : ChunkRef = record { count = c; size = size_in (valid (lookup d t.now.counts)) n } in
    (c, put_row d row t, rw fits refl)

update_up :
    (d : Text) (o : Option ChunkRef) (t : Open)
    → 1 < count_of o
    → (c : ℕ) × (t' : Open) × (update_found d o t ≡ (inr (some c), t'))
update_up d none t p = absurd (omega arith)
update_up d (some r) t p =
    let more : ltb 1 r.count ≡ true = ground arith in
    (r.count - 1, put_row d (record r { count = r.count - 1 }) t, rw more refl)

pub server-IsUp : IsUp server server-IsServer
unfolding server-IsServer
server-IsUp = record {
  begins = λ db. (_, refl);
  commits = λ t. (_, refl);
  inserts = insert_up;
  updates = λ d t p. update_up d (valid (lookup d t.now.counts)) t p;
  inserts_manifest = λ f v n t. (_, refl);
  deletes_manifest = λ f t. (_, refl);
  selects = λ f db. (_, refl);
  encodes = λ l. (_, refl);
}
