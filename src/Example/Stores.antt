-- ===== src/Example/Stores.antt =====
-- Stores at which the theorems are applied: an empty one, one with a file of two chunks, and one
-- from which that file has been deleted.
use chunkstore.Base.{
  sym, subst, if◌then◌else◌, ℕ, ◌+◌, ◌<◌, ◌≡◌, ◌≢◌, ◌∙◌, refl, ap, ◌⊎◌, inl, inr, List, [], ◌∷◌,
  Option, none, some, arith, length, concat, map, All,
}
use chunkstore.Base.Text.{Text, Bytes, codes}
use chunkstore.Base.Map.{Map, lookup, insert, lookup-insert}
use chunkstore.Backend.Memory.{memory_backend-IsLawful, matching}
use chunkstore.Persistence.Files.{IsFileId}
use chunkstore.RefCount.{ChunkRef}
use chunkstore.RefCount.Laws.{count_of}
use chunkstore.Store.{ingest_chunks}
use chunkstore.Store.Invariant.{WStore, Inv, Inv-pending, nothing, digest, occurs}
use chunkstore.Store.Session.{Room}
use chunkstore.Store.Names.{ingest_chunks_nameless}
use chunkstore.Store.Commit.{ingest_chunks_lem}
use chunkstore.Store.Runs.{fresh, IsEmpty, Runs, InOrder, Runs-InOrder, created, ingested}
use chunkstore.Example.Platform.{world, platform, first, second}

abbrev pub name : Text
name = 97 ∷ []

pub name-IsFileId : IsFileId name
unfolding codes
name-IsFileId = (λ e. absurd (absent (ap length e)), λ e. absurd (short (ap length e)))
  where
    absent : ◌≡◌ {A = ℕ} 1 0 → ⊥
    absent e = omega arith

    short : ◌≡◌ {A = ℕ} 1 9 → ⊥
    short e = omega arith

abbrev pub chunks : List Bytes
chunks = first ∷ second ∷ []

pub chunks-known : All world.Known chunks
chunks-known = (inl refl, (inr refl, tt))

abbrev pub empty : WStore world
empty = fresh world []

pub nothing_there : IsEmpty world []
unfolding lookup
nothing_there k = memory_backend-IsLawful.1 [] k

abbrev pub empty_runs : Runs world empty []
empty_runs = created [] nothing_there

pub empty-InOrder : InOrder world empty []
empty-InOrder = Runs-InOrder world empty_runs

pub room : Room world empty (length chunks)
unfolding lookup
room d = omega arith

pub fits : empty.stats.total_bytes + length (concat chunks) < chunkstore.Base.Word.word_size
fits = omega arith

abbrev pub stored : WStore world
stored = (ingest_chunks platform name chunks empty).1

abbrev pub stored_contents : Map Bytes
stored_contents = insert name (concat chunks) []

pub stored_runs : Runs world stored stored_contents
stored_runs = ingested empty_runs name chunks name-IsFileId chunks-known room fits

pub stored-InOrder : InOrder world stored stored_contents
stored-InOrder = Runs-InOrder world stored_runs

pub stored-names : lookup name stored.manifest.files ≡ some (map (digest world) chunks)
stored-names =
    let (s', run, inv, files, tidy) =
      ingest_chunks_lem world empty name chunks empty-InOrder.inv name-IsFileId chunks-known room in
    ap (λ m. lookup name m.1.manifest.files) run ∙ rw (files, lookup-insert) (ground arith)

-- No chunk of the world is empty.
pub stored_sizes : (d : Text) (r : ChunkRef) → lookup d stored.refcount ≡ some r → 0 < r.size
stored_sizes d r found =
    let (h, e) = stored-InOrder.inv.present d r found in
    elim h.known [ inl x ↦ omega (arith, e, ap length x) | inr y ↦ omega (arith, e, ap length y) ]

pub none_there : lookup name empty.manifest.files ≡ none
unfolding lookup
none_there = refl

abbrev pub listed_keys : List Text
listed_keys = matching [] stored.backend

pub stored-listed : world.lawful.listed [] stored.backend ≡ some listed_keys
stored-listed = memory_backend-IsLawful.2 stored.backend []

-- A store in which one chunk is counted once and no file names it, as in the middle of a deletion.
abbrev pub leaving : WStore world
leaving = (ingest_chunks platform [] (first ∷ []) empty).1

leaving-names :
    (leaving.manifest ≡ empty.manifest)
    × Inv world (λ d. occurs d (map (digest world) (first ∷ []))) leaving
leaving-names =
    let (s', run, manifest, inv) =
      ingest_chunks_nameless world empty (first ∷ []) empty-InOrder.inv (inl refl, tt)
        (λ d. omega (arith, room d)) in
    subst
      (λ (z : WStore world).
        (z.manifest ≡ empty.manifest)
        × Inv world (λ d. occurs d (map (digest world) (first ∷ []))) z)
      (sym (ap (λ m. m.1) run)) (manifest, inv)

pub leaving-Inv : Inv world (λ e. occurs e (digest world first ∷ []) + nothing e) leaving
leaving-Inv = Inv-pending world _ _ leaving (λ d. omega arith) leaving-names.1

pub leaving-once : count_of (lookup (digest world first) leaving.refcount) ≡ 1
leaving-once = leaving-names.1.counts (digest world first) ∙ rw leaving-names.0 (ground arith)
