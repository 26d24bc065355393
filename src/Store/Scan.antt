-- ===== src/Store/Scan.antt =====
-- The loops of `ChunkStore::fsck` and `collect_orphans` in core/src/store: what each of them finds.
use chunkstore.Base.{
  ℕ, ◌+◌, ◌%◌, ◌<◌, ◌≡◌, ◌∙◌, refl, true, false, not, ◌&&◌, Option, none, some, List, [], ◌∷◌,
  arith, length, if◌then◌else◌, All, map, is_some, Option-cases, Bool-cases, inl, inr,
}
use chunkstore.Base.Text.{Text, text_eq}
use chunkstore.Base.Word.{word_size, add}
use chunkstore.Base.Map.{Map, lookup}
use chunkstore.Error.{ok}
use chunkstore.Backend.Lawful.{contains}
use chunkstore.RefCount.{ChunkRef}
use chunkstore.Persistence.Keys.{IsDigest}
use chunkstore.Store.Digest.{is_chunk_digest}
use chunkstore.Store.Check.{orphans, find_missing, unlink}
use chunkstore.Store.World.{World}
use chunkstore.Store.Invariant.{WStore, Inv, Pending, view}
use chunkstore.Store.Frames.{BState, seen}

pub is_chunk_digest_lem : (d : Text) → is_chunk_digest d ≡ true → IsDigest d
unfolding is_chunk_digest
is_chunk_digest_lem d h = ground arith

-- The digests that are counted.
abbrev pub keys_of : Map ChunkRef → List Text
keys_of counts = map (λ r. r.0) counts

pub contains-keys_of :
    (d : Text) (counts : Map ChunkRef) → contains d (keys_of counts) ≡ is_some (lookup d counts)
unfolding lookup
contains-keys_of d [] = refl
contains-keys_of d ((k, r) ∷ counts) = ground (arith, contains-keys_of d counts)

pub contains-All :
    (P : Text → Type 0) (l : List Text) → ((d : Text) → contains d l ≡ true → P d) → All P l
contains-All P [] h = tt
contains-All P (x ∷ l) h = (h x (ground arith), contains-All P l (λ d e. h d (ground arith)))

pub contains-orphans :
    (live keys : List Text) (k : Text)
    → contains k (orphans live keys)
      ≡ (contains k keys && (is_chunk_digest k && not (contains k live)))
unfolding orphans
contains-orphans live [] k = refl
contains-orphans live (x ∷ keys) k = elim (Bool-cases (text_eq k x)) [
  | inl same ↦ let e : k ≡ x = ground arith in rw e (ground (arith, contains-orphans live keys x))
  | inr other ↦ ground (arith, contains-orphans live keys k)
]

pub none_contained : (l : List Text) → ((k : Text) → contains k l ≡ false) → l ≡ []
none_contained [] h = refl
none_contained (x ∷ l) h = absurd (ground (arith, h x))

module _ (W : World) where
  pub find_missing_none :
      (live missing : List Text) (s : WStore W)
      → All (λ d. is_some (view W s d) ≡ true) live
      → find_missing W.platform live missing s ≡ (ok missing, s)
  unfolding find_missing
  find_missing_none [] missing s h = refl
  find_missing_none (d ∷ live) missing s h =
      rw (W.lawful.exists_lem, h.0) (find_missing_none live missing s h.1)

  pub counted_present :
      (p : Pending) (s : WStore W)
      → Inv W p s
      → All (λ d. is_some (view W s d) ≡ true) (keys_of s.refcount)
  counted_present p s inv =
      contains-All (λ d. is_some (view W s d) ≡ true) (keys_of s.refcount)
        λ d e. elim (Option-cases (lookup d s.refcount)) [
          | inl missing ↦ absurd (ground (arith, contains-keys_of d s.refcount))
          | inr (r, found) ↦ rw (inv.present d r found).0.held refl
        ]

  -- The orphans that a scan of the listed keys finds.
  abbrev pub found_orphans : WStore W → Option (List Text) → List Text
  found_orphans s none = []
  found_orphans s (some keys) = orphans (keys_of s.refcount) keys

  abbrev pub without : List Text → BState W → BState W
  without [] b = b
  without (k ∷ keys) b = without keys (W.lawful.deleted k b)

  pub view-without :
      (keys : List Text) (b : BState W) (j : Text)
      → seen W (without keys b) j ≡ (if contains j keys then none else seen W b j)
  view-without [] b j = refl
  view-without (k ∷ keys) b j =
      ground (arith, view-without keys (W.lawful.deleted k b) j, W.lawful.view-deleted k b j)

  pub unlink_lem :
      (keys : List Text) (n : ℕ) (s : WStore W)
      → n < word_size
      → unlink W.platform keys n s
        ≡ (ok ((n + length keys) % word_size), record s { backend = without keys s.backend })
  unfolding unlink add
  unlink_lem [] n s h = let e : (n + 0) % word_size ≡ n = omega arith in rw e refl
  unlink_lem (k ∷ keys) n s h =
      let e : ((n + 1) % word_size + length keys) % word_size
          ≡ (n + length (k ∷ keys)) % word_size =
        omega arith in
      rw W.lawful.delete_lem (
        unlink_lem keys ((n + 1) % word_size) (record s { backend = W.lawful.deleted k s.backend })
          (omega arith)
        ∙ rw e refl)
