-- ===== src/Store/Session.antt =====
-- An ingest session and the release of digests, chunk after chunk.
use chunkstore.Base.{
  ℕ, suc, ◌+◌, ◌<◌, ◌≡◌, ◌∙◌, refl, List, [], ◌∷◌, ◌++◌, arith, length, Option-cases, inl, inr, map,
  All, concat, append_assoc, append-nil, length-append,
}
use chunkstore.Base.Text.{Text, Bytes}
use chunkstore.Base.Word.{word_size, add, add_lem}
use chunkstore.Base.Map.{lookup, lookup-insert}
use chunkstore.Error.{ok}
use chunkstore.Exec.{each}
use chunkstore.RefCount.Laws.{count_of}
use chunkstore.Store.Chunks.{release_digests}
use chunkstore.Store.Files.{IngestSession, accept}
use chunkstore.Store.World.{World}
use chunkstore.Store.Frames.{BState}
use chunkstore.Store.Storing.{stored, entry, store_chunk_lem}
use chunkstore.Store.Releasing.{released, release_digest_lem}
use chunkstore.Store.Tidy.{Tidy, stored-Tidy, stats_total, released-Tidy}
use chunkstore.Store.Invariant.{WStore, Inv, Inv-pending, Pending, occurs, digest}

module _ (W : World) where
  -- The session after it has accepted the chunks.
  abbrev pub with_chunk : IngestSession → Bytes → IngestSession
  with_chunk session c = record {
    digests = session.digests ++ digest W c ∷ [];
    sizes = session.sizes ++ length c ∷ [];
    file_bytes = add session.file_bytes (length c);
  }

  abbrev pub session_after : List Bytes → IngestSession → IngestSession
  session_after [] session = session
  session_after (c ∷ cs) session = session_after cs (with_chunk session c)

  pub session_after-digests :
      (cs : List Bytes) (session : IngestSession)
      → (session_after cs session).digests ≡ session.digests ++ map (digest W) cs
  session_after-digests [] session = rw append-nil
  session_after-digests (c ∷ cs) session =
      session_after-digests cs (with_chunk session c) ∙ rw append_assoc

  -- What accepting chunks leaves: each is counted once more, as pending.
  pub record Accepted (p : Pending) (s : WStore W) (cs : List Bytes) (session : IngestSession)
      : Type 0 where
    pub final : WStore W
    pub run : each (accept W.platform) cs (session, s) ≡ (ok tt, (session_after cs session, final))
    pub inv : Inv W (λ e. occurs e (map (digest W) cs) + p e) final
    pub manifest : final.manifest ≡ s.manifest
    pub tidy : Tidy W s → s.stats.total_bytes + length (concat cs) < word_size → Tidy W final

  abbrev pub Room : WStore W → ℕ → Type 0
  Room s n = (d : Text) → count_of (lookup d s.refcount) + n < word_size

  Room-stored :
      (p : Pending) (s : WStore W) (inv : Inv W p s) (c : Bytes) (known : W.Known c) (b' : BState W)
      (n : ℕ)
      → Room s (suc n)
      → Room (stored W p s inv c known b') n
  Room-stored p s inv c known b' n room d =
      let more : (entry W p s inv c known).count ≡ count_of (lookup (digest W c) s.refcount) + 1 =
        add_lem _ 1 (omega (arith, room (digest W c))) in
      ground (
        arith,
        lookup-insert d (digest W c) (entry W p s inv c known) s.refcount,
        room d,
        room (digest W c),
        more,
      )

  -- Every chunk is stored, whatever was there, and counted once for each time that it comes.
  pub accept-All :
      (cs : List Bytes) (p : Pending) (s : WStore W) (session : IngestSession)
      → Inv W p s
      → All W.Known cs
      → Room s (length cs)
      → Accepted p s cs session
  unfolding each accept
  accept-All [] p s session inv known room = record {
    final = s;
    run = refl;
    inv = Inv-pending W p _ s (λ d. omega arith) inv;
    manifest = refl;
    tidy = λ t bytes. t;
  }
  accept-All (c ∷ cs) p s session inv known room =
      let here : count_of (lookup (digest W c) s.refcount) + 1 < word_size =
        omega (arith, room (digest W c)) in
      let (b', run, inv', others) = store_chunk_lem W p s inv c known.0 here in
      let next = stored W p s inv c known.0 b' in
      let rest =
        accept-All cs (λ e. occurs e (digest W c ∷ []) + p e) next (with_chunk session c) inv'
          known.1 (Room-stored p s inv c known.0 b' (length cs) room) in
      record {
        final = rest.final;
        run = rw run rest.run;
        inv = Inv-pending W _ _ rest.final (λ d. omega arith) rest.inv;
        manifest = rest.manifest;
        tidy = λ t bytes.
            let fits : s.stats.total_bytes + length c < word_size =
              omega (arith, length-append c (concat cs)) in
            rest.tidy (stored-Tidy W p s inv t c known.0 b' others here fits) (
              rw (stats_total W p s inv t c known.0 b' others here fits)
                (omega (arith, length-append c (concat cs))));
      }

  -- What giving references back leaves.
  pub record Released (q : Pending) (s : WStore W) (ds : List Text) : Type 0 where
    pub final : WStore W
    pub run : release_digests W.platform ds s ≡ (ok tt, final)
    pub inv : Inv W q final
    pub manifest : final.manifest ≡ s.manifest
    pub tidy : Tidy W s → Tidy W final

  pub release_all :
      (ds : List Text) (q : Pending) (s : WStore W)
      → Inv W (λ e. occurs e ds + q e) s
      → Released q s ds
  unfolding release_digests each
  release_all [] q s inv = record {
    final = s;
    run = refl;
    inv = Inv-pending W _ q s (λ e. omega arith) inv;
    manifest = refl;
    tidy = λ t. t;
  }
  release_all (d ∷ ds) q s inv = elim (Option-cases (lookup d s.refcount)) [
    | inl missing ↦ absurd (ground (arith, inv.counts d))
    | inr (r, found) ↦
        let (b', run, inv', own, others) =
          release_digest_lem W _ s inv d r found (λ e. occurs e ds + q e) (λ e. omega arith) in
        let rest = release_all ds q (released W _ s inv d r found b') inv' in
        record {
          final = rest.final;
          run = rw run rest.run;
          inv = rest.inv;
          manifest = rest.manifest;
          tidy = λ t. rest.tidy (released-Tidy W _ s inv t d r found b' own others);
        }
  ]
