-- ===== src/Persistence/Refs.antt =====
-- Saving and removing a reference count keeps the backend a mirror of the metadata in memory.
use chunkstore.Base.{◌≡◌, ◌≢◌, ◌∙◌, sym, Bool, ◌||◌, true, some, arith, is_some}
use chunkstore.Base.Text.{Text, Text-discrete, text_eq}
use chunkstore.Base.Map.{lookup, insert, remove, lookup-insert, lookup-remove}
use chunkstore.Error.{ok}
use chunkstore.Backend.{ChunkBackend}
use chunkstore.Backend.Lawful.{IsLawful, starts_with}
use chunkstore.Json.{Json, IsJson, RefCountRecord}
use chunkstore.RefCount.{RefCount, ChunkRef}
use chunkstore.Persistence.{refcount_key, refcount_index_key, save_refcount, remove_refcount}
use chunkstore.Persistence.Keys.{
  IsDigest, index_name, refcount_prefix, validate_digest_lem, IsDigest-ne-index_name,
  starts_with-refcount_key, refcount_index_key_lem, refcount_key_inj,
}
use chunkstore.Persistence.Disk.{
  KeepsOutside, outside_written, outside_deleted, starts_refcount_index, Indexed-Keeps,
  Indexed-same, Indexed-frame, is_some-insert, is_some-remove,
}
use chunkstore.Persistence.Index.{
  Indexed, Keeps, Keeps-written, Keeps-deleted, add_to_index_lem, remove_from_index_lem,
}

-- The record of an entry.
abbrev pub ref_record : ChunkRef → RefCountRecord
ref_record r = record { count = r.count; size = r.size }

module _ (J : Json) (B : ChunkBackend) (json : IsJson J) (law : IsLawful B) where
  -- The backend holds a record for each entry, and the index lists them.
  pub record DiskRefs (b : B.State) (counts : RefCount) : Type 0 where
    pub index : Indexed J B json law b refcount_index_key (λ d. is_some (lookup d counts))
    pub valid : (d : Text) (r : ChunkRef) → lookup d counts ≡ some r → IsDigest d
    pub records :
        (d : Text) (r : ChunkRef)
        → lookup d counts ≡ some r
        → law.view b (refcount_key d) ≡ some (json.refcount_bytes (ref_record r))

  pub DiskRefs-frame :
      (counts : RefCount) (b b' : B.State)
      → ((k : Text) → starts_with k refcount_prefix ≡ true → law.view b' k ≡ law.view b k)
      → DiskRefs b counts
      → DiskRefs b' counts
  DiskRefs-frame counts b b' same h = record {
    index =
        Indexed-frame J B json law refcount_index_key _ b b'
          (same refcount_index_key starts_refcount_index) h.index;
    valid = h.valid;
    records = λ d r found. same (refcount_key d) (starts_with-refcount_key d) ∙ h.records d r found;
  }

  refcount_key-ne-index : (d : Text) → d ≢ index_name → refcount_key d ≢ refcount_index_key
  refcount_key-ne-index d ne e = ne (refcount_key_inj d index_name (e ∙ refcount_index_key_lem))

  -- Writing one record, then the index.
  module _ (counts : RefCount) (d : Text) (r : ChunkRef) (digest : IsDigest d) where
    saved_valid :
        (b : B.State)
        → DiskRefs b counts
        → (e : Text) (x : ChunkRef) → lookup e (insert d r counts) ≡ some x
        → IsDigest e
    saved_valid b h e x found = elim (Text-discrete e d) [
      | yes same ↦ rw same digest
      | no differ ↦ h.valid e x (ground (arith, lookup-insert e d r counts))
    ]

    saved_records :
        (b b₁ : B.State)
        → DiskRefs b counts
        → Keeps J B json law refcount_index_key
            (law.written (refcount_key d) (json.refcount_bytes (ref_record r)) b)
            b₁
        → (e : Text) (x : ChunkRef) → lookup e (insert d r counts) ≡ some x
        → law.view b₁ (refcount_key e) ≡ some (json.refcount_bytes (ref_record x))
    saved_records b b₁ h keeps e x found =
        let ne = refcount_key-ne-index e (IsDigest-ne-index_name e (saved_valid b h e x found)) in
        keeps (refcount_key e) ne
        ∙ ground (
          arith,
          law.view-written (refcount_key d) (json.refcount_bytes (ref_record r)) b (refcount_key e),
          lookup-insert e d r counts,
          refcount_key_inj e d,
          h.records e x,
        )

    -- An index that can be read is enough for saving, whatever the other records are.
    pub save_refcount_run :
        (keys : Text → Bool) (b : B.State)
        → Indexed J B json law b refcount_index_key keys
        → (b' : B.State) × (save_refcount J B d r.count r.size b ≡ (ok tt, b'))
          × Indexed J B json law b' refcount_index_key (λ x. text_eq x d || keys x)
          × Keeps J B json law refcount_index_key
              (law.written (refcount_key d) (json.refcount_bytes (ref_record r)) b)
              b'
          × KeepsOutside J B json law refcount_prefix b b'
    unfolding save_refcount
    save_refcount_run keys b h =
        let v = json.refcount_bytes (ref_record r) in
        let b₁ = law.written (refcount_key d) v b in
        let ne = refcount_key-ne-index d (IsDigest-ne-index_name d digest) in
        let index₁ =
          Indexed-Keeps J B json law refcount_index_key (refcount_key d) keys b b₁ (λ e. ne (sym e))
            (Keeps-written J B json law b (refcount_key d) v) h in
        let (b', e, i, k) = add_to_index_lem J B json law b₁ refcount_index_key d keys index₁ in
        (
          b',
          rw (validate_digest_lem d digest, json.refcount_written, law.put_lem) e,
          i,
          k,
          outside_written J B json law refcount_prefix (refcount_key d) refcount_index_key v b b'
              (starts_with-refcount_key d) starts_refcount_index k,
        )

    pub save_refcount_lem :
        (b : B.State)
        → DiskRefs b counts
        → (b' : B.State) × (save_refcount J B d r.count r.size b ≡ (ok tt, b'))
          × DiskRefs b' (insert d r counts)
          × KeepsOutside J B json law refcount_prefix b b'
    save_refcount_lem b h =
        let (b', e, i, k, outside) = save_refcount_run _ b h.index in
        (
          b',
          e,
          record {
            index =
                Indexed-same J B json law refcount_index_key _ _ b'
                  (λ x. is_some-insert x d r counts) i;
            valid = saved_valid b h;
            records = saved_records b b' h k;
          },
          outside,
        )

  -- Deleting one record, then its place in the index.
  module _ (counts : RefCount) (d : Text) (digest : IsDigest d) where
    removed_valid :
        (b : B.State)
        → DiskRefs b counts
        → (e : Text) (x : ChunkRef) → lookup e (remove d counts) ≡ some x
        → IsDigest e
    removed_valid b h e x found = h.valid e x (ground (arith, lookup-remove e d counts))

    removed_records :
        (b b₁ : B.State)
        → DiskRefs b counts
        → Keeps J B json law refcount_index_key (law.deleted (refcount_key d) b) b₁
        → (e : Text) (x : ChunkRef) → lookup e (remove d counts) ≡ some x
        → law.view b₁ (refcount_key e) ≡ some (json.refcount_bytes (ref_record x))
    removed_records b b₁ h keeps e x found =
        let ne = refcount_key-ne-index e (IsDigest-ne-index_name e (removed_valid b h e x found)) in
        keeps (refcount_key e) ne
        ∙ ground (
          arith,
          law.view-deleted (refcount_key d) b (refcount_key e),
          lookup-remove e d counts,
          refcount_key_inj e d,
          h.records e x,
        )

    pub remove_refcount_lem :
        (b : B.State)
        → DiskRefs b counts
        → (b' : B.State) × (remove_refcount J B d b ≡ (ok tt, b'))
          × DiskRefs b' (remove d counts)
          × KeepsOutside J B json law refcount_prefix b b'
    unfolding remove_refcount
    remove_refcount_lem b h =
        let b₁ = law.deleted (refcount_key d) b in
        let ne = refcount_key-ne-index d (IsDigest-ne-index_name d digest) in
        let index₁ =
          Indexed-Keeps J B json law refcount_index_key (refcount_key d) _ b b₁ (λ e. ne (sym e))
            (Keeps-deleted J B json law b (refcount_key d)) h.index in
        let (b', e, i, k) = remove_from_index_lem J B json law b₁ refcount_index_key d _ index₁ in
        (
          b',
          rw law.delete_lem e,
          record {
            index =
                Indexed-same J B json law refcount_index_key _ _ b' (λ x. is_some-remove x d counts)
                  i;
            valid = removed_valid b h;
            records = removed_records b b' h k;
          },
          outside_deleted J B json law refcount_prefix (refcount_key d) refcount_index_key b b'
              (starts_with-refcount_key d) starts_refcount_index k,
        )
