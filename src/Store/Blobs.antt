-- ===== src/Store/Blobs.antt =====
-- The block under the `blob` lock in `store_chunk` of core/src/store/mod.rs: afterwards the blob
-- stands under its digest, whether it was there or not.
use chunkstore.Base.{◌≡◌, ◌∙◌, refl, ap, true, some, arith, is_some, Bool-cases, inl, inr}
use chunkstore.Base.Text.{Text, Bytes}
use chunkstore.Error.{ok}
use chunkstore.Persistence.Keys.{IsDigest}
use chunkstore.Store.Chunks.{put_blob}
use chunkstore.Store.World.{World}
use chunkstore.Store.Frames.{BState, seen, KeepsBut}
use chunkstore.Store.Invariant.{WStore, Holds, view, digest, digest-IsDigest}

module _ (W : World) where
  -- What stands under a digest is the blob of a chunk with that digest.
  abbrev pub IsHonest : WStore W → Type 0
  IsHonest s = (d : Text) → IsDigest d → is_some (view W s d) ≡ true → Holds W s d

  module _ (s : WStore W) (honest : IsHonest s) (c : Bytes) (known : W.Known c) where
    abbrev d : Text
    d = digest W c

    -- A blob that stands under the digest is the chunk's own.
    same_blob : is_some (view W s d) ≡ true → view W s d ≡ some (W.coding.blob c)
    same_blob there =
        let h = honest d (digest-IsDigest W c) there in
        h.held
        ∙ ap (λ z. some (W.coding.blob z)) (W.no_clash h.content c h.known known h.digest_lem)

    pub put_blob_lem :
        (b' : BState W) × (put_blob W.platform d (W.coding.blob c) s
          ≡ (ok (is_some (view W s d)), record s { backend = b' }))
        × (seen W b' d ≡ some (W.coding.blob c))
        × KeepsBut W d s.backend b'
    unfolding put_blob
    put_blob_lem = elim (Bool-cases (is_some (view W s d))) [
      | inl there ↦ (s.backend, rw (W.lawful.exists_lem, there), same_blob there, λ k ne. refl)
      | inr missing ↦ (
        W.lawful.written d (W.coding.blob c) s.backend,
        rw (W.lawful.exists_lem, missing, W.lawful.put_lem),
        W.lawful.view-written d (W.coding.blob c) s.backend d ∙ ground arith,
        λ k ne. W.lawful.view-written d (W.coding.blob c) s.backend k ∙ ground arith,
      )
    ]
