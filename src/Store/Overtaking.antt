-- ===== src/Store/Overtaking.antt =====
-- Two threads on one store: `store_chunk` and `release_digests` of core/src/store/mod.rs. Each takes
-- the locks `blob` and `refcount` one after the other, so the other can run between its sections.
use chunkstore.Base.{
  ℕ, ◌+◌, ◌-◌, ◌<◌, ◌≡◌, ◌∙◌, refl, Bool, true, false, ◌==◌, if◌then◌else◌, Option, none, some,
  List, [], ◌∷◌, ◌++◌, arith, length, is_some, Option-cases, inl, inr,
}
use chunkstore.Base.Text.{Text, Bytes, codes}
use chunkstore.Base.Map.{lookup, lookup-insert}
use chunkstore.Base.Word.{add_lem}
use chunkstore.Error.{ok, err, not_found}
use chunkstore.Exec.{Exec, pure, ◌>>=◌, ◌>>◌}
use chunkstore.RefCount.Laws.{count_of}
use chunkstore.Persistence.Keys.{starts_with-digest_refcount}
use chunkstore.Stats.{add_reference, add_unique_chunk}
use chunkstore.Store.Types.{Platform, on_stats}
use chunkstore.Store.Chunks.{
  Store, put_blob, count_reference, release_digest, read_chunk, read_chunk_by_digest,
}
use chunkstore.Store.World.{World}
use chunkstore.Store.Invariant.{WStore, Inv, Pending, occurs, view, digest, digest-IsDigest}
use chunkstore.Store.Storing.{count_reference_lem, entry}
use chunkstore.Store.Releasing.{release_digest_lem, lookup-counts_left, released}

-- `store_chunk` of one thread, and between its section under `blob` and its section under `refcount`
-- the release of the same digest by another thread.
module _ (P : Platform) where
  abbrev pub overtaken : Text → Bytes → ℕ → Exec (Store P) Bool
  overtaken digest blob size = do
    exists ← put_blob P digest blob
    release_digest P digest
    count_reference P digest size
    on_stats (if exists then add_reference size else add_unique_chunk size)
    pure exists

module _ (W : World) where
  put_nothing :
      (s : WStore W) (d : Text) (blob : Bytes)
      → is_some (view W s d) ≡ true
      → put_blob W.platform d blob s ≡ (ok true, s)
  unfolding put_blob
  put_nothing s d blob held = rw (W.lawful.exists_lem, held) refl

  read_nothing :
      (s : WStore W) (d : Text)
      → view W s d ≡ none
      → read_chunk W.platform d s ≡ (err (not_found (codes "chunk " ++ d)), s)
  unfolding read_chunk_by_digest
  read_nothing s d gone = rw (W.lawful.get_lem, gone) refl

  -- Let the last reference of a known chunk be on its way out of a valid store. A thread that stores
  -- the chunk again, and is overtaken by the release after it has found the blob, succeeds and counts
  -- one reference of a chunk that has no blob, so that reading the chunk fails.
  pub overtaken_lem :
      (q : Pending) (s : WStore W) (c : Bytes)
      → Inv W (λ e. occurs e (digest W c ∷ []) + q e) s
      → W.Known c
      → count_of (lookup (digest W c) s.refcount) ≡ 1
      → (t : WStore W) × (overtaken W.platform (digest W c) (W.coding.blob c) (length c) s
          ≡ (ok true, t))
        × (count_of (lookup (digest W c) t.refcount) ≡ 1)
        × (read_chunk W.platform (digest W c) t
            ≡ (err (not_found (codes "chunk " ++ digest W c)), t))
  overtaken_lem q s c inv known once = elim (Option-cases (lookup (digest W c) s.refcount)) [
    | inl missing ↦ absurd (ground (arith, missing, once))
    | inr (r, found) ↦
        let d = digest W c in
        let held : is_some (view W s d) ≡ true = rw (inv.present d r found).0.held refl in
        let (b₁, run, inv₁, own, others) = release_digest_lem W _ s inv d r found q (λ e. refl) in
        let s₁ = released W _ s inv d r found b₁ in
        let last : (r.count - 1 == 0) ≡ true = ground (arith, found, once) in
        let gone : lookup d s₁.refcount ≡ none =
          lookup-counts_left W _ s inv d r found d ∙ ground (arith, last) in
        let (b₂, counted, refs, outside) =
          count_reference_lem W q s₁ inv₁ c known b₁ inv₁.disk_refs in
        let e = entry W q s₁ inv₁ c known in
        let one : e.count ≡ 1 =
          add_lem (count_of (lookup d s₁.refcount)) 1 (rw gone (omega arith)) ∙ rw gone refl in
        let t : WStore W = record s₁ {
          backend = b₂;
          refcount = chunkstore.Base.Map.insert d e s₁.refcount;
          stats = add_reference (length c) s₁.stats;
        } in
        (
          t,
          rw (put_nothing s d (W.coding.blob c) held, run, counted) refl,
          rw lookup-insert (ground (arith, one)),
          read_nothing t d (
              outside d (starts_with-digest_refcount d (digest-IsDigest W c)) ∙ own ∙ rw last refl),
        )
  ]
