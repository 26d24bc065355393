-- ===== src/Store/Runs.antt =====
-- A store from its creation on: the calls that core/src/store/mod.rs offers, in any order.
use chunkstore.Base.{
  ◌+◌, ◌<◌, ◌≡◌, refl, ap, none, some, List, [], arith, length, is_some, ltb, concat, All,
  Option-cases, inl, inr,
}
use chunkstore.Base.Text.{Text, Bytes}
use chunkstore.Base.Word.{word_size}
use chunkstore.Base.Map.{Map, lookup, insert, remove}
use chunkstore.Manifest
use chunkstore.Manifest.{Manifest, remove_file}
use chunkstore.Stats.{default_stats}
use chunkstore.RefCount.Laws.{count_of}
use chunkstore.Persistence.Keys.{IsDigest}
use chunkstore.Persistence.Files.{IsFileId}
use chunkstore.Store.Files.{ingest_chunks, delete, read}
use chunkstore.Store.World.{World}
use chunkstore.Store.Invariant.{WStore, Inv, nothing, view, named}
use chunkstore.Store.Frames.{BState, seen}
use chunkstore.Store.Session.{Room}
use chunkstore.Store.Tidy.{Tidy}
use chunkstore.Store.Reading.{read_missing, read_keeps}
use chunkstore.Store.Commit.{ingest_chunks_lem, delete_lem}
use chunkstore.Store.Contract.{Refines, insertion-Refines, removal-Refines}

module _ (W : World) where
  -- What `open` makes of a backend that holds nothing (with the codec that `open_with_codec` adds).
  abbrev pub fresh : BState W → WStore W
  fresh b = record {
    backend = b;
    manifest = Manifest.new;
    refcount = [];
    stats = default_stats;
    codec = W.codec;
  }

  abbrev pub IsEmpty : BState W → Type 0
  IsEmpty b = (k : Text) → seen W b k ≡ none

  pub fresh-Inv : (b : BState W) → IsEmpty b → Inv W nothing (fresh b)
  unfolding lookup
  fresh-Inv b h = record {
    codec = refl;
    files_nodup = tt;
    refs_nodup = tt;
    counts = λ d. refl;
    positive = λ d r e. absurd cc;
    honest = λ d i e. absurd (ground (arith, h d));
    present = λ d r e. absurd cc;
    disk_refs = record {
      index = record { ids = []; stored = inr (h _, refl); agrees = λ d. refl };
      valid = λ d r e. absurd cc;
      records = λ d r e. absurd cc;
    };
    disk_files = record {
      index = record { ids = []; stored = inr (h _, refl); agrees = λ d. refl };
      valid = λ d r e. absurd cc;
      records = λ d r e. absurd cc;
    };
  }

  pub fresh-Tidy : (b : BState W) → IsEmpty b → Tidy W (fresh b)
  fresh-Tidy b h = record {
    counted = λ d i e. absurd (ground (arith, h d));
    stored_bytes = refl;
    total_bytes = refl;
    fits = omega arith;
  }

  fresh-Refines : (b : BState W) → Refines W (fresh b) []
  unfolding lookup
  fresh-Refines b f = read_missing W f (fresh b) refl

  -- A store and the contents that it should have, after calls of its methods.
  pub data Runs : WStore W → Map Bytes → Type 0 where
    created : (b : BState W) → IsEmpty b → Runs (fresh b) []
    ingested :
        {s : WStore W} {contents : Map Bytes}
        → Runs s contents
        → (f : Text) (cs : List Bytes) → IsFileId f
        → All W.Known cs
        → Room W s (length cs)
        → s.stats.total_bytes + length (concat cs) < word_size
        → Runs (ingest_chunks W.platform f cs s).1 (insert f (concat cs) contents)
    deleted :
        {s : WStore W} {contents : Map Bytes}
        → Runs s contents
        → (f : Text) (ds : List Text) → lookup f s.manifest.files ≡ some ds
        → Runs (delete W.platform f s).1 (remove f contents)
    reads :
        {s : WStore W} {contents : Map Bytes}
        → Runs s contents
        → (f : Text) → Runs (read W.platform f s).1 contents

  -- What holds of every store that is in order.
  pub record InOrder (s : WStore W) (contents : Map Bytes) : Type 0 where
    pub inv : Inv W nothing s
    pub tidy : Tidy W s
    pub refines : Refines W s contents

  move : {s t : WStore W} {contents : Map Bytes} → t ≡ s → InOrder s contents → InOrder t contents
  move e h = rw e h

  -- From an empty backend on, ingesting chunks, deleting files that are there and reading, in any
  -- order, keep the invariant, the exact statistics and the absence of uncounted blobs, and every
  -- file reads as the last contents that were stored under its name. The names ingested are neither
  -- empty nor that of the index, no two of the chunks have one digest, and no counter is full.
  pub Runs-InOrder : {s : WStore W} {contents : Map Bytes} → Runs s contents → InOrder s contents
  Runs-InOrder (created b h) = record {
    inv = fresh-Inv b h;
    tidy = fresh-Tidy b h;
    refines = fresh-Refines b;
  }
  Runs-InOrder (ingested {s = s} {contents = contents} r f cs id known room bytes) =
      let h = Runs-InOrder r in
      let (s', run, inv, files, tidy) = ingest_chunks_lem W s f cs h.inv id known room in
      move (ap (λ m. m.1) run) (record {
        inv = inv;
        tidy = tidy h.tidy bytes;
        refines = insertion-Refines W s s' f cs contents h.inv inv files known h.refines;
      })
  Runs-InOrder (deleted {s = s} {contents = contents} r f ds found) =
      let h = Runs-InOrder r in
      let (s', run, inv, files, tidy) = delete_lem W s f ds h.inv found in
      move (ap (λ m. m.1) run) (record {
        inv = inv;
        tidy = tidy h.tidy;
        refines = removal-Refines W s s' f contents h.inv inv files h.refines;
      })
  Runs-InOrder (reads {s = s} {contents = contents} r f) =
      let h = Runs-InOrder r in move (read_keeps W nothing s f h.inv) h

  -- After any such calls, the reference count of a digest is the number of places in the files that
  -- name it, and the backend holds its blob exactly when a file names it: shared chunks stay as long
  -- as they are used, and no longer.
  pub Runs-counts :
      {s : WStore W} {contents : Map Bytes}
      → Runs s contents
      → (d : Text) → IsDigest d
      → (count_of (lookup d s.refcount) ≡ named d s.manifest.files)
        × (is_some (view W s d) ≡ ltb 0 (named d s.manifest.files))
  Runs-counts {s = s} r d h =
      let o = Runs-InOrder r in
      (
        omega (arith, o.inv.counts d),
        elim (Option-cases (lookup d s.refcount)) [
          | inl missing ↦ ground (arith, o.tidy.counted d h, o.inv.counts d)
          | inr (entry, found) ↦
              let held = (o.inv.present d entry found).0.held in
              let pos = (o.inv.positive d entry found).0 in
              rw held (ground (arith, o.inv.counts d, found))
        ],
      )
