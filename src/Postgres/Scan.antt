-- ===== src/Postgres/Scan.antt =====
-- `fsck` of core/src/store/mod.rs on Postgres.
use chunkstore.Base.{
  ℕ, ◌+◌, ◌%◌, ◌<◌, ◌≡◌, ◌∙◌, refl, sym, ap, subst, if◌then◌else◌, true, false, not, ◌&&◌, ltb,
  none, some, ◌⊎◌, inl, inr, List, [], ◌∷◌, arith, length, map, is_some, All,
}
use chunkstore.Base.Text.{Text}
use chunkstore.Base.Word.{word_size}
use chunkstore.Base.Map.{Map}
use chunkstore.Error.{Result, ok}
use chunkstore.Exec.Inversion.{IsFailure}
use chunkstore.Backend.Lawful.{contains}
use chunkstore.Persistence.Keys.{IsDigest}
use chunkstore.Store.{FsckReport, orphans, collect_orphans, is_chunk_digest}
use chunkstore.Store.World.{World}
use chunkstore.Store.Invariant.{Holds-move, view, named, digest-IsDigest}
use chunkstore.Store.Scan.{
  contains-All, contains-orphans, find_missing_none, without, view-without, unlink_lem,
}
use chunkstore.Postgres.Server.{Server, RefCountRow}
use chunkstore.Postgres.Laws.{IsServer}
use chunkstore.Postgres.Trim.{trim}
use chunkstore.Postgres.Trimmed.{trim-hex}
use chunkstore.Postgres.Rows.{list_refcounts}
use chunkstore.Postgres.Committed.{count_at}
use chunkstore.Postgres.Shared.{fsck}
use chunkstore.Postgres.Serving.{QStore, Serves}

-- The digests that `fsck` takes from the rows.
abbrev listed_digests : List RefCountRow → List Text
listed_digests rows =
    map (λ (r : Text × ℕ × ℕ). r.0)
      (map (λ (row : RefCountRow). (trim row.digest, row.entry.count, row.entry.size)) rows)

listed_same :
    (rows : List RefCountRow)
    → ((d : Text) → contains d (map (λ (row : RefCountRow). row.digest) rows) ≡ true → IsDigest d)
    → listed_digests rows ≡ map (λ (row : RefCountRow). row.digest) rows
listed_same [] h = refl
listed_same (row ∷ rows) h =
    rw (trim-hex row.digest (h row.digest (ground arith)).1)
      (ap (λ ds. row.digest ∷ ds) (listed_same rows (λ d e. h d (ground arith))))

module _ (W : World) (Q : Server) (law : IsServer Q) where
  module _ (s : QStore W Q law) (files : Map (List Text)) (served : Serves W Q law s files) where
    counted-IsDigest : (d : Text) → 0 < count_at Q law s.pg d → IsDigest d
    counted-IsDigest d pos =
        let h = served.present d pos in rw (← h.digest_lem) (digest-IsDigest W h.content)

    module _ (rows : List RefCountRow) (answered : Q.select_refcounts s.pg ≡ inr rows) where
      contains-live : (d : Text) → contains d (listed_digests rows) ≡ ltb 0 (named d files)
      contains-live d =
          let at = λ (k : Text). law.select_refcounts_lem s.pg rows k answered in
          let digests = listed_same rows (λ k e. counted-IsDigest k (ground (arith, at k))) in
          rw (digests, at d, served.counted.counts d) refl

      module _ (keys : List Text) (listed : W.lawful.listed [] s.store.backend ≡ some keys) where
        abbrev stray : List Text
        stray = orphans (listed_digests rows) keys

        contains-stray :
            (d : Text)
            → contains d stray
              ≡ (is_chunk_digest d && (is_some (view W s.store d) && not (ltb 0 (named d files))))
        contains-stray d =
            let (there, back) = W.lawful.contains-listed [] s.store.backend keys d listed in
            ground
              (arith, contains-orphans (listed_digests rows) keys d, contains-live d, there, back)

        live_present : All (λ d. is_some (view W s.store d) ≡ true) (listed_digests rows)
        live_present =
            contains-All (λ d. is_some (view W s.store d) ≡ true) (listed_digests rows)
              λ d e.
                let pos : 0 < count_at Q law s.pg d =
                  ground (arith, contains-live d, served.counted.counts d) in
                rw (served.present d pos).held refl

        abbrev repaired_store : QStore W Q law
        repaired_store = record s {
          store = record s.store { backend = without W stray s.store.backend };
        }

        same_view :
            (d : Text) → contains d stray ≡ false → view W repaired_store.store d ≡ view W s.store d
        same_view d h = ground (arith, view-without W stray s.store.backend d)

        repaired_Serves : Serves W Q law repaired_store files
        repaired_Serves = record {
          counted = served.counted;
          codec = served.codec;
          honest = λ d valid there.
              let same = same_view d (ground (arith, view-without W stray s.store.backend d)) in
              (Holds-move W s.store repaired_store.store d same
                (served.honest d valid (ap is_some (sym same) ∙ there))).0;
          present = λ d pos.
              let same = same_view d (ground (arith, contains-stray d, served.counted.counts d)) in
              (Holds-move W s.store repaired_store.store d same (served.present d pos)).0;
        }

        fsck_lem : fsck W.platform Q true s ≡ (
          ok (record {
            missing_blobs = [];
            orphan_blobs = stray;
            repaired = length stray % word_size;
          }),
          repaired_store,
        )
        unfolding fsck collect_orphans list_refcounts
        fsck_lem =
            rw
              (
                answered,
                find_missing_none W (listed_digests rows) [] s.store live_present,
                W.lawful.list_keys_lem,
                listed,
              )
              (let zero_more : (0 + length stray) % word_size ≡ length stray % word_size =
                  omega arith in
                rw (unlink_lem W stray 0 s.store (omega arith), zero_more) refl)

  -- What a repair leaves: a failure and the store as it was; or a report that names no blob as
  -- missing, and as orphans the blobs that no file names, which are gone from the store then.
  abbrev pub Scanned :
      QStore W Q law → Map (List Text) → Result FsckReport × QStore W Q law → Type 0
  Scanned s files (r, t) =
      (IsFailure r × (t ≡ s))
      ⊎ ((report : FsckReport) × (r ≡ ok report)
          × (report.missing_blobs ≡ [])
          × (report.repaired ≡ length report.orphan_blobs % word_size)
          × ((d : Text)
              → contains d report.orphan_blobs ≡ (
                  is_chunk_digest d && (is_some (view W s.store d) && not (ltb 0 (named d files)))))
          × ((d : Text)
              → view W t.store d
                ≡ (if contains d report.orphan_blobs then none else view W s.store d))
          × Serves W Q law t files)

  -- On a store on Postgres that serves some files, and whose backend lists its keys, a repair either
  -- fails and changes nothing, or reports no missing blob and as orphans exactly the blobs of
  -- digests that no file names, removes those, and the store serves the same files.
  pub fsck-Serves :
      (s : QStore W Q law) (files : Map (List Text)) (keys : List Text)
      → Serves W Q law s files
      → W.lawful.listed [] s.store.backend ≡ some keys
      → Scanned s files (fsck W.platform Q true s)
  unfolding fsck list_refcounts
  fsck-Serves s files keys served listed = at (Q.select_refcounts s.pg) refl
    where
      at :
          (q : Text ⊎ List RefCountRow)
          → Q.select_refcounts s.pg ≡ q
          → Scanned s files (fsck W.platform Q true s)
      at (inl m) run = rw run (inl (tt, refl))
      at (inr rows) run =
          subst (Scanned s files) (sym (fsck_lem s files served rows run keys listed)) (
            inr (
              _,
              refl,
              refl,
              refl,
              contains-stray s files served rows run keys listed,
              view-without W (orphans (listed_digests rows) keys) s.store.backend,
              repaired_Serves s files served rows run keys listed,
            ))
