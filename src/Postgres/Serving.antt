-- ===== src/Postgres/Serving.antt =====
-- A store of core/src/store/mod.rs on Postgres: `ingest` and `delete` against the files on record.
use chunkstore.Base.{
  ℕ, ◌<◌, ◌≡◌, ◌∙◌, refl, sym, ap, Option, none, some, ◌⊎◌, inl, inr, List, [], ◌∷◌, arith, map,
  All, is_some, Bool-cases,
}
use chunkstore.Base.Text.{Text, Bytes, text_eq}
use chunkstore.Base.Map.{Map, lookup}
use chunkstore.Error.{Result, ok}
use chunkstore.Exec.Inversion.{IsFailure}
use chunkstore.Store.{IngestSession}
use chunkstore.Store.World.{World}
use chunkstore.Store.Frames.{BState}
use chunkstore.Store.Blobs.{IsHonest}
use chunkstore.Store.Invariant.{WStore, Holds, Holds-move, view, digest, occurs}
use chunkstore.Postgres.Server.{Server}
use chunkstore.Postgres.Rows.{manifest_digests, found_digests, json_digests}
use chunkstore.Postgres.Laws.{IsServer}
use chunkstore.Postgres.Committed.{count_at}
use chunkstore.Postgres.Effects.{Counted}
use chunkstore.Postgres.Shared.{SharedStore}
use chunkstore.Postgres.Blobs.{Stocked}
use mathlib.Core.Option

pub occurs-Holds :
    (W : World) (s : WStore W) (cs : List Bytes) (d : Text)
    → All (λ c. Holds W s (digest W c)) cs
    → 0 < occurs d (map (digest W) cs)
    → Holds W s d
occurs-Holds W s [] d h o = absurd (omega arith)
occurs-Holds W s (c ∷ cs) d h o = elim (Bool-cases (text_eq d (digest W c))) [
  | inl e ↦ let same : d ≡ digest W c = ground arith in rw same h.0
  | inr e ↦ occurs-Holds W s cs d h.1 (ground arith)
]

module _ (W : World) (Q : Server) (law : IsServer Q) where
  abbrev pub QStore : Type 0
  QStore = SharedStore W.platform Q

  -- The database records these files and counts what they name; the backend holds the blob of each
  -- digest that has a reference, and what stands under a digest is a chunk's blob.
  pub record Serves (s : QStore) (files : Map (List Text)) : Type 0 where
    pub counted : Counted Q law s.pg files
    pub codec : s.store.codec ≡ W.codec
    pub honest : IsHonest W s.store
    pub present : (d : Text) → 0 < count_at Q law s.pg d → Holds W s.store d

  -- The rest of `manifest_digests`, on a row for the list on record.
  pub row_lem :
      (o : Option Q.Value) (l : Option (List Text)) (db : Q.Db)
      → Option.map Q.from_value o ≡ Option.map {B = Text ⊎ List Text} inr l
      → found_digests Q o db ≡ (ok l, db)
  unfolding found_digests json_digests
  row_lem none none db e = refl
  row_lem none (some ds) db e = absurd (cc)
  row_lem (some v) none db e = absurd (cc)
  row_lem (some v) (some ds) db e = let read : Q.from_value v ≡ inr ds = cc in rw read refl

  pub seen_row :
      (o : Option Q.Value) (x : Option (Q.Value × ℕ))
      → o ≡ Option.map (λ y. y.0) x
      → Option.map Q.from_value o ≡ Option.map {B = Text ⊎ List Text} (λ y. Q.from_value y.0) x
  seen_row o none e = rw e refl
  seen_row o (some y) e = rw e refl

  peek_at :
      (f : Text) (db : Q.Db) (q : Text ⊎ Option Q.Value) (files : Map (List Text))
      → Counted Q law db files
      → Q.select_digests f db ≡ q
      → ((manifest_digests Q f db).1 ≡ db)
        × (((manifest_digests Q f db).0 ≡ ok (lookup f files))
            ⊎ IsFailure (manifest_digests Q f db).0)
  unfolding manifest_digests
  peek_at f db (inl m) files inv e = rw e (refl, inr tt)
  peek_at f db (inr o) files inv e =
      let row = row_lem o (lookup f files) db (
        seen_row o ((law.committed db).files f) (law.select_digests_lem f db o e)
        ∙ inv.files_lem f) in
      rw (e, row) (refl, inl refl)

  -- `manifest_digests` finds the list on record, unless a call fails.
  pub peek_lem :
      (f : Text) (db : Q.Db) (files : Map (List Text))
      → Counted Q law db files
      → ((manifest_digests Q f db).1 ≡ db)
        × (((manifest_digests Q f db).0 ≡ ok (lookup f files))
            ⊎ IsFailure (manifest_digests Q f db).0)
  peek_lem f db files inv = peek_at f db (Q.select_digests f db) files inv refl

  -- What an operation may leave: the change made; or a failure and the files as they were, or the
  -- change made all the same.
  abbrev pub Outcome :
      {A : Type 0} → A → Result A × QStore → Map (List Text) → Map (List Text) → Type 0
  Outcome a (r, s) changed files =
      ((r ≡ ok a) × Serves s changed) ⊎ (IsFailure r × (Serves s files ⊎ Serves s changed))

  -- The same blobs, beside another database and manifest.
  pub moved :
      (s t : QStore) (files files' : Map (List Text))
      → Serves s files
      → t.store.backend ≡ s.store.backend
      → t.store.codec ≡ s.store.codec
      → Counted Q law t.pg files'
      → ((d : Text) → 0 < count_at Q law t.pg d → Holds W s.store d)
      → Serves t files'
  moved s t files files' served same coded counted present =
      let at : (d : Text) → view W t.store d ≡ view W s.store d = λ d. rw same refl in
      record {
        counted = counted;
        codec = coded ∙ served.codec;
        honest = λ d valid there.
            (Holds-move W s.store t.store d (at d)
              (served.honest d valid (ap is_some (sym (at d)) ∙ there))).0;
        present = λ d pos. (Holds-move W s.store t.store d (at d) (present d pos)).0;
      }

  -- The same blobs and the same database.
  pub kept :
      (s t : QStore) (files : Map (List Text))
      → Serves s files
      → t.store.backend ≡ s.store.backend
      → t.store.codec ≡ s.store.codec
      → t.pg ≡ s.pg
      → Serves t files
  kept s t files served same coded db =
      moved s t files files served same coded (rw db served.counted)
        (λ d pos. served.present d (rw (← db) pos))

  -- The store when a session has put its blobs.
  abbrev pub begun : QStore → BState W → QStore
  begun s b = record s { store = record s.store { backend = b } }

  pub put-Serves :
      (s : QStore) (cs : List Bytes) (session : IngestSession) (files : Map (List Text))
      → Serves s files
      → (put : Stocked W Q s.store cs session) → Serves (begun s put.backend) files
  put-Serves s cs session files served put = record {
    counted = served.counted;
    codec = served.codec;
    honest = put.honest;
    present = λ d pos. put.kept d (served.present d pos);
  }
