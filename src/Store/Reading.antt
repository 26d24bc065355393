-- ===== src/Store/Reading.antt =====
-- Reading back what a store holds.
use chunkstore.Base.{
  ◌≤◌, ◌<◌, ◌≡◌, ◌∙◌, sym, refl, ap, none, some, List, [], ◌∷◌, ◌++◌, arith, concat, append_assoc,
  append-nil, map, Option-cases, inl, inr, All,
}
use chunkstore.Base.Text.{Text, Bytes, codes}
use chunkstore.Base.Map.{Map, lookup, NodupKeys, at, total-remove}
use chunkstore.Error.{ok, err, not_found}
use chunkstore.Exec.{each}
use chunkstore.Hasher.{verify_digest}
use chunkstore.Hasher.Laws.{verify_digest_lem}
use chunkstore.Manifest
use chunkstore.Manifest.{Manifest}
use chunkstore.RefCount.Laws.{count_of}
use chunkstore.Store.Chunks.{read_chunk_by_digest, encode_with, decode_with}
use chunkstore.Store.Files.{read, extend, digests_for_file, write_chunk}
use chunkstore.Store.World.{World}
use chunkstore.Store.Invariant.{WStore, Holds, Inv, Pending, occurs, named, view, digest}

pub occurs-le-named :
    (d f : Text) (ds : List Text) (files : Map (List Text))
    → NodupKeys files
    → lookup f files ≡ some ds
    → occurs d ds ≤ named d files
occurs-le-named d f ds files h e =
    let same : at (occurs d) (lookup f files) ≡ occurs d ds = rw e in
    omega (arith, total-remove (λ _ es. occurs d es) f files h, same)

module _ (W : World) where
  pub decoded_in :
      (s : WStore W) (c : Bytes) → s.codec ≡ W.codec → decode_with s.codec (W.coding.blob c) ≡ ok c
  decoded_in s c coded = rw coded (W.coding.decoded c)

  pub encoded_in :
      (s : WStore W) (c : Bytes) → s.codec ≡ W.codec → encode_with s.codec c ≡ ok (W.coding.blob c)
  encoded_in s c coded = rw coded (W.coding.encoded c)

  verify_held :
      (c : Bytes) (d : Text) → digest W c ≡ d → verify_digest W.platform.sha256 c d ≡ ok tt
  verify_held c d e = (verify_digest_lem W.platform.sha256 c d).0.1 e

  pub read_chunk_lem :
      (s : WStore W) (d : Text) (c : Bytes)
      → s.codec ≡ W.codec
      → digest W c ≡ d
      → view W s d ≡ some (W.coding.blob c)
      → read_chunk_by_digest W.platform d s ≡ (ok c, s)
  unfolding read_chunk_by_digest
  read_chunk_lem s d c coded named held =
      rw (W.lawful.get_lem, held, decoded_in s c coded, verify_held c d named)

  -- The chunks that the backend holds for a list of digests.
  abbrev pub Chunks : WStore W → List Text → List Bytes → Type 0
  Chunks s [] [] = Unit
  Chunks s [] (c ∷ cs) = ⊥
  Chunks s (d ∷ ds) [] = ⊥
  Chunks s (d ∷ ds) (c ∷ cs) =
      W.Known c × (digest W c ≡ d) × (view W s d ≡ some (W.coding.blob c)) × Chunks s ds cs

  pub find-Chunks :
      (s : WStore W) (ds : List Text)
      → ((d : Text) → 0 < occurs d ds → Holds W s d)
      → (cs : List Bytes) × Chunks s ds cs
  find-Chunks s [] h = ([], tt)
  find-Chunks s (d ∷ ds) h =
      let x = h d (ground arith) in
      let (cs, k) = find-Chunks s ds (λ e o. h e (omega arith)) in
      (x.content ∷ cs, (x.known, x.digest_lem, x.held, k))

  pub Chunks-digests :
      (s : WStore W) (ds : List Text) (cs : List Bytes) → Chunks s ds cs → map (digest W) cs ≡ ds
  Chunks-digests s [] [] h = refl
  Chunks-digests s [] (c ∷ cs) h = absurd h
  Chunks-digests s (d ∷ ds) [] h = absurd h
  Chunks-digests s (d ∷ ds) (c ∷ cs) h = cc (h.1, Chunks-digests s ds cs h.3)

  -- Two stores that hold chunks for the same digests hold the same chunks.
  Chunks-unique :
      (s t : WStore W) (ds : List Text) (cs es : List Bytes)
      → Chunks s ds cs
      → Chunks t ds es
      → cs ≡ es
  Chunks-unique s t [] [] [] h k = refl
  Chunks-unique s t [] [] (e ∷ es) h k = absurd k
  Chunks-unique s t [] (c ∷ cs) es h k = absurd h
  Chunks-unique s t (d ∷ ds) [] es h k = absurd h
  Chunks-unique s t (d ∷ ds) (c ∷ cs) [] h k = absurd k
  Chunks-unique s t (d ∷ ds) (c ∷ cs) (e ∷ es) h k =
      cc (W.no_clash c e h.0 k.0 (h.1 ∙ sym k.1), Chunks-unique s t ds cs es h.3 k.3)

  -- The chunks behind the digests of known chunks are these chunks.
  pub Chunks-known :
      (t : WStore W) (cs es : List Bytes)
      → All W.Known cs
      → Chunks t (map (digest W) cs) es
      → es ≡ cs
  Chunks-known t [] [] known h = refl
  Chunks-known t [] (e ∷ es) known h = absurd h
  Chunks-known t (c ∷ cs) [] known h = absurd h
  Chunks-known t (c ∷ cs) (e ∷ es) known h =
      cc (W.no_clash e c h.0 known.0 h.1, Chunks-known t cs es known.1 h.3)

  pub write-Chunks :
      (s : WStore W) (ds : List Text) (cs : List Bytes) (out : Bytes)
      → s.codec ≡ W.codec
      → Chunks s ds cs
      → each (write_chunk W.platform (extend W.platform)) ds (out, s)
        ≡ (ok tt, (out ++ concat cs, s))
  unfolding each
  write-Chunks s [] [] out coded h = rw append-nil
  write-Chunks s [] (c ∷ cs) out coded h = absurd h
  write-Chunks s (d ∷ ds) [] out coded h = absurd h
  write-Chunks s (d ∷ ds) (c ∷ cs) out coded h =
      rw (read_chunk_lem s d c coded h.1 h.2)
        (write-Chunks s ds cs (out ++ c) coded h.3 ∙ rw append_assoc)

  module _ (p : Pending) (s : WStore W) (inv : Inv W p s) where
    file-Chunks :
        (f : Text) (ds : List Text)
        → lookup f s.manifest.files ≡ some ds
        → (cs : List Bytes) × Chunks s ds cs
    file-Chunks f ds e = find-Chunks s ds λ d o.
        held d
          (omega (arith, occurs-le-named d f ds s.manifest.files inv.files_nodup e, inv.counts d))
      where
        held : (d : Text) → 0 < count_of (lookup d s.refcount) → Holds W s d
        held d pos = elim (Option-cases (lookup d s.refcount)) [
          | inl missing ↦ absurd (ground arith)
          | inr (r, found) ↦ (inv.present d r found).0
        ]

    -- A file that the manifest of a valid store names is read as the concatenation of chunks that
    -- the backend holds and whose digests are the ones listed, in order; the store does not change.
    pub read_lem :
        (f : Text) (ds : List Text)
        → lookup f s.manifest.files ≡ some ds
        → (cs : List Bytes) × Chunks s ds cs
          × (map (digest W) cs ≡ ds)
          × (read W.platform f s ≡ (ok (concat cs), s))
    unfolding read digests_for_file Manifest.get
    read_lem f ds e =
        let (cs, h) = file-Chunks f ds e in
        (cs, h, Chunks-digests s ds cs h, rw (e, write-Chunks s ds cs [] inv.codec h))

  pub read_missing :
      (f : Text) (s : WStore W)
      → lookup f s.manifest.files ≡ none
      → read W.platform f s ≡ (err (not_found (codes "file " ++ f)), s)
  unfolding read digests_for_file Manifest.get
  read_missing f s e = rw e

  -- Between two valid stores that name the same digests for a file, the file reads the same.
  pub read_same :
      (p q : Pending) (s t : WStore W) (f : Text)
      → Inv W p s
      → Inv W q t
      → lookup f t.manifest.files ≡ lookup f s.manifest.files
      → (read W.platform f t).0 ≡ (read W.platform f s).0
  read_same p q s t f i j same = elim (Option-cases (lookup f s.manifest.files)) [
    | inl missing ↦ rw (read_missing f s missing, read_missing f t (same ∙ missing))
    | inr (ds, found) ↦
        let (cs, h, _, r) = read_lem p s i f ds found in
        let (es, k, _, u) = read_lem q t j f ds (same ∙ found) in
        rw (r, u) (ap (λ z. ok (concat z)) (Chunks-unique t s ds es cs k h))
  ]

  -- Reading changes nothing, whether the file is there or not.
  pub read_keeps : (p : Pending) (s : WStore W) (f : Text) → Inv W p s → (read W.platform f s).1 ≡ s
  read_keeps p s f inv = elim (Option-cases (lookup f s.manifest.files)) [
    | inl missing ↦ rw (read_missing f s missing) refl
    | inr (ds, found) ↦ let (cs, h, _, r) = read_lem p s inv f ds found in rw r refl
  ]
