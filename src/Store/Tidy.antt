-- ===== src/Store/Tidy.antt =====
-- What holds of a store besides its invariant while no crash has left blobs behind: the statistics
-- are exact, and every blob is counted.
use native.Mathlib.Nat.{mul-suc}
use chunkstore.Base.{
  ℕ, zero, suc, ◌+◌, ◌-◌, ◌*◌, ◌≤◌, ◌<◌, ◌≡◌, ◌≢◌, ◌∙◌, sym, refl, true, Option, none, some, arith,
  length, if◌then◌else◌, is_some, Bool-cases, Option-cases, inl, inr, ◌==◌,
}
use chunkstore.Base.Text.{Text, Bytes}
use chunkstore.Base.Word.{word_size, add_lem}
use chunkstore.Base.Map.{lookup, insert, lookup-insert, total, total-insert, total-remove, total-le}
use chunkstore.RefCount.{RefCount, ChunkRef}
use chunkstore.RefCount.Laws.{count_of, SizeAgrees}
use chunkstore.Stats.{add_reference, add_unique_chunk, remove_reference, remove_unique_chunk}
use chunkstore.Persistence.Keys.{IsDigest}
use chunkstore.Store.World.{World}
use chunkstore.Store.Frames.{BState, seen}
use chunkstore.Store.Storing.{stored, stored_stats, entry, SizeAgrees-at}
use chunkstore.Store.Releasing.{released, kept_ref, left, counts_left, lookup-counts_left}
use chunkstore.Store.Invariant.{WStore, Inv, Pending, view, digest, digest-IsDigest}

abbrev pub size_at : Text → ChunkRef → ℕ
size_at k r = r.size

abbrev pub bytes_at : Text → ChunkRef → ℕ
bytes_at k r = r.size * r.count

mul_pred : (a b : ℕ) → 0 < b → a * b ≡ a * (b - 1) + a
mul_pred a zero h = absurd (omega arith)
mul_pred a (suc b) h = let e : suc b - 1 ≡ b = omega arith in rw (e, mul-suc) (omega arith)

module _ (W : World) where
  pub record Tidy (s : WStore W) : Type 0 where
    pub counted :
        (d : Text) → IsDigest d → is_some (view W s d) ≡ true → is_some (lookup d s.refcount) ≡ true
    pub stored_bytes : s.stats.stored_bytes ≡ total size_at s.refcount
    pub total_bytes : s.stats.total_bytes ≡ total bytes_at s.refcount
    pub fits : s.stats.total_bytes < word_size

  pub stored-le-total :
      (p : Pending) (s : WStore W)
      → Inv W p s
      → total size_at s.refcount ≤ total bytes_at s.refcount
  stored-le-total p s inv =
      total-le size_at bytes_at s.refcount inv.refs_nodup
        λ k r e. positive_le r.size r.count (inv.positive k r e).0
    where
      positive_le : (a b : ℕ) → 0 < b → a ≤ a * b
      positive_le a b h = grind arith

  module _ (p : Pending) (s : WStore W) (inv : Inv W p s) (tidy : Tidy s) (c : Bytes)
      (known : W.Known c) (b' : BState W)
      (others : (k : Text) → IsDigest k → k ≢ digest W c → seen W b' k ≡ seen W s.backend k)
      (room : count_of (lookup (digest W c) s.refcount) + 1 < word_size)
      (bytes : s.stats.total_bytes + length c < word_size) where
    abbrev size : ℕ
    size = length c

    abbrev more : ChunkRef
    more = entry W p s inv c known

    -- A blob stands under the digest exactly when it is counted.
    exists_iff : is_some (view W s (digest W c)) ≡ is_some (lookup (digest W c) s.refcount)
    exists_iff = elim (Option-cases (lookup (digest W c) s.refcount)) [
      | inl missing ↦ ground (arith, missing, tidy.counted (digest W c) (digest-IsDigest W c))
      | inr (r, found) ↦ let h = (inv.present (digest W c) r found).0 in rw (found, h.held)
    ]

    entry_count : more.count ≡ count_of (lookup (digest W c) s.refcount) + 1
    entry_count = add_lem _ 1 room

    stored_room : s.stats.stored_bytes + size < word_size
    stored_room = omega (arith, stored-le-total p s inv, tidy.stored_bytes, tidy.total_bytes)

    stored_bytes_at :
        (o : Option ChunkRef)
        → lookup (digest W c) s.refcount ≡ o
        → SizeAgrees size o
        → is_some (view W s (digest W c)) ≡ is_some o
        → (stored_stats W p s inv c known).stored_bytes
          ≡ total size_at (insert (digest W c) more s.refcount)
    unfolding add_reference add_unique_chunk
    stored_bytes_at none e h x =
        rw (x, add_lem s.stats.stored_bytes size stored_room)
          (ground (
            arith,
            e,
            tidy.stored_bytes,
            total-insert size_at (digest W c) more s.refcount inv.refs_nodup,
          ))
    stored_bytes_at (some r) e h x = rw x (
        ground (
          arith,
          e,
          tidy.stored_bytes,
          total-insert size_at (digest W c) more s.refcount inv.refs_nodup,
        ))

    total_bytes_at :
        (o : Option ChunkRef)
        → lookup (digest W c) s.refcount ≡ o
        → SizeAgrees size o
        → total bytes_at (insert (digest W c) more s.refcount) ≡ s.stats.total_bytes + size
    total_bytes_at none e h = grind (
      arith,
      e,
      entry_count,
      tidy.total_bytes,
      total-insert bytes_at (digest W c) more s.refcount inv.refs_nodup,
    )
    total_bytes_at (some r) e h = grind (
      arith,
      e,
      entry_count,
      tidy.total_bytes,
      total-insert bytes_at (digest W c) more s.refcount inv.refs_nodup,
    )

    pub stats_total : (stored_stats W p s inv c known).total_bytes ≡ s.stats.total_bytes + size
    unfolding add_reference add_unique_chunk
    stats_total = ground (arith, add_lem s.stats.total_bytes size bytes)

    stored_counted :
        (e : Text)
        → IsDigest e
        → is_some (seen W b' e) ≡ true
        → is_some (lookup e (insert (digest W c) (entry W p s inv c known) s.refcount)) ≡ true
    stored_counted e h there = ground (
      arith,
      lookup-insert e (digest W c) (entry W p s inv c known) s.refcount,
      others e h,
      tidy.counted e h,
    )

    pub stored-Tidy : Tidy (stored W p s inv c known b')
    stored-Tidy = record {
      counted = stored_counted;
      stored_bytes = stored_bytes_at _ refl (SizeAgrees-at W p s inv c known _ refl) exists_iff;
      total_bytes =
          stats_total ∙ sym (total_bytes_at _ refl (SizeAgrees-at W p s inv c known _ refl));
      fits = rw stats_total bytes;
    }

  module _ (p : Pending) (s : WStore W) (inv : Inv W p s) (tidy : Tidy s) (d : Text) (r : ChunkRef)
      (found : lookup d s.refcount ≡ some r) (b' : BState W)
      (own : seen W b' d ≡ (if left W p s inv d r found == 0 then none else seen W s.backend d))
      (others : (k : Text) → IsDigest k → k ≢ d → seen W b' k ≡ seen W s.backend k) where
    abbrev rest : RefCount
    rest = counts_left W p s inv d r found

    released_counted :
        (e : Text) → IsDigest e → is_some (seen W b' e) ≡ true → is_some (lookup e rest) ≡ true
    released_counted e h there =
        ground (arith, lookup-counts_left W p s inv d r found e, own, others e h, tidy.counted e h)

    -- The entry of `d` loses one reference, or goes.
    left-total :
        (f : Text → ChunkRef → ℕ)
        → total f rest + f d r
          ≡ total f s.refcount
            + (if left W p s inv d r found == 0 then 0 else f d (kept_ref W p s inv d r found))
    left-total f = elim (Bool-cases (left W p s inv d r found == 0)) [
      | inl last ↦ rw last (ground (arith, found, total-remove f d s.refcount inv.refs_nodup))
      | inr more ↦ rw more (
          ground (
            arith,
            found,
            total-insert f d (kept_ref W p s inv d r found) s.refcount inv.refs_nodup,
          ))
    ]

    stored_left : (released W p s inv d r found b').stats.stored_bytes ≡ total size_at rest
    unfolding remove_reference remove_unique_chunk
    stored_left = ground (arith, left-total size_at, tidy.stored_bytes)

    total_left : (released W p s inv d r found b').stats.total_bytes ≡ total bytes_at rest
    unfolding remove_reference remove_unique_chunk
    total_left = ground (
      arith,
      left-total bytes_at,
      tidy.total_bytes,
      mul_pred r.size r.count (inv.positive d r found).0,
    )

    stats_total_left :
        (released W p s inv d r found b').stats.total_bytes ≡ s.stats.total_bytes - r.size
    unfolding remove_reference remove_unique_chunk
    stats_total_left = ground arith

    pub released-Tidy : Tidy (released W p s inv d r found b')
    released-Tidy = record {
      counted = released_counted;
      stored_bytes = stored_left;
      total_bytes = total_left;
      fits = rw stats_total_left (omega (arith, tidy.fits));
    }
