-- ===== src/Store/Statistics.antt =====
-- What the statistics of `ChunkStore` in core/src/store/mod.rs say about the files.
use native.Mathlib.Nat.{mul-add}
use chunkstore.Base.{
  ℕ, ◌+◌, ◌*◌, ◌<◌, ◌≡◌, ◌∙◌, sym, refl, ap, if◌then◌else◌, none, some, List, [], ◌∷◌, arith,
  length, length-append, concat, Option-cases, Bool-cases, inl, inr,
}
use chunkstore.Base.Text.{Text, Bytes, text_eq}
use chunkstore.Base.Map.{Map, lookup, NodupKeys, total, at, total-le}
use chunkstore.Error.{Result, ok, err, hang}
use chunkstore.RefCount.{RefCount, ChunkRef}
use chunkstore.RefCount.Laws.{count_of}
use chunkstore.Store.Files.{read}
use chunkstore.Store.World.{World}
use chunkstore.Store.Invariant.{WStore, Inv, nothing, occurs, named}
use chunkstore.Store.Tidy.{Tidy, bytes_at}
use chunkstore.Store.Reading.{Chunks, read_lem, occurs-le-named}

module _ {ℓ} {V : Type ℓ} where
  total-cong :
      (f g : Text → V → ℕ) (m : Map V)
      → ((k : Text) (v : V) → f k v ≡ g k v)
      → total f m ≡ total g m
  total-cong f g [] h = refl
  total-cong f g ((k, v) ∷ m) h = omega (arith, h k v, total-cong f g m h)

  total-add :
      (f g : Text → V → ℕ) (m : Map V) → total (λ k v. f k v + g k v) m ≡ total f m + total g m
  total-add f g [] = omega arith
  total-add f g ((k, v) ∷ m) = omega (arith, total-add f g m)

  total_zero : (m : Map V) → total (λ k v. 0) m ≡ 0
  total_zero [] = refl
  total_zero ((k, v) ∷ m) = omega (arith, total_zero m)

  -- Equal at every entry.
  total-eq :
      (f g : Text → V → ℕ) (m : Map V)
      → NodupKeys m
      → ((k : Text) (v : V) → lookup k m ≡ some v → f k v ≡ g k v)
      → total f m ≡ total g m
  total-eq f g m nodup h =
      let up = total-le f g m nodup (λ k v e. omega (arith, h k v e)) in
      let down = total-le g f m nodup (λ k v e. omega (arith, h k v e)) in omega (arith, up, down)

-- The recorded size of a digest, and of a list of them.
abbrev size_in : RefCount → Text → ℕ
size_in counts d = at (λ (r : ChunkRef). r.size) (lookup d counts)

abbrev sizes_in : RefCount → List Text → ℕ
sizes_in counts [] = 0
sizes_in counts (d ∷ ds) = size_in counts d + sizes_in counts ds

abbrev one_at : Text → Text → ChunkRef → ℕ
one_at d k r = if text_eq k d then r.size else 0

total-one_at :
    (d : Text) (counts : RefCount) → NodupKeys counts → total (one_at d) counts ≡ size_in counts d
unfolding lookup
total-one_at d [] h = refl
total-one_at d ((k, r) ∷ counts) h = elim (Bool-cases (text_eq k d)) [
  | inl same ↦
      let e : k ≡ d = ground arith in
      let gone : lookup d counts ≡ none = rw (← e) h.0 in
      ground (arith, total-one_at d counts h.1, gone)
  | inr other ↦ ground (arith, total-one_at d counts h.1)
]

times_occurs :
    (size : ℕ) (d k : Text) (ds : List Text)
    → size * occurs k (d ∷ ds) ≡ (if text_eq k d then size else 0) + size * occurs k ds
times_occurs size d k ds = elim (Bool-cases (text_eq k d)) [
  | inl same ↦ rw same (grind arith)
  | inr other ↦ rw other (grind arith)
]

-- The sizes of a list, counted digest by digest.
total-occurs :
    (ds : List Text) (counts : RefCount)
    → NodupKeys counts
    → total (λ k r. r.size * occurs k ds) counts ≡ sizes_in counts ds
total-occurs [] counts h = total-cong _ (λ k r. 0) counts (λ k r. grind arith) ∙ total_zero counts
total-occurs (d ∷ ds) counts h =
    total-cong _ (λ k r. one_at d k r + r.size * occurs k ds) counts
      (λ k r. times_occurs r.size d k ds)
    ∙ total-add (one_at d) (λ k r. r.size * occurs k ds) counts
    ∙ rw (total-one_at d counts h, total-occurs ds counts h) refl

-- The sizes of all files, counted digest by digest.
total-named :
    (files : Map (List Text)) (counts : RefCount)
    → NodupKeys counts
    → total (λ k r. r.size * named k files) counts ≡ total (λ f ds. sizes_in counts ds) files
total-named [] counts h = total-cong _ (λ k r. 0) counts (λ k r. grind arith) ∙ total_zero counts
total-named ((f, ds) ∷ files) counts h =
    total-cong _ (λ k r. r.size * occurs k ds + r.size * named k files) counts
      (λ k r. mul-add r.size (occurs k ds) (named k files))
    ∙ total-add (λ k r. r.size * occurs k ds) (λ k r. r.size * named k files) counts
    ∙ rw (total-occurs ds counts h, total-named files counts h) refl

abbrev length_of : Result Bytes → ℕ
length_of (ok content) = length content
length_of (err e) = 0
length_of hang = 0

module _ (W : World) where
  -- How many bytes reading a file gives.
  abbrev pub read_length : WStore W → Text → ℕ
  read_length s f = length_of (read W.platform f s).0

  module _ (s : WStore W) (inv : Inv W nothing s) where
    sizes_in-Chunks :
        (ds : List Text) (cs : List Bytes)
        → ((d : Text) → 0 < occurs d ds → 0 < count_of (lookup d s.refcount))
        → Chunks W s ds cs
        → sizes_in s.refcount ds ≡ length (concat cs)
    sizes_in-Chunks [] [] counted h = refl
    sizes_in-Chunks [] (c ∷ cs) counted h = absurd h
    sizes_in-Chunks (d ∷ ds) [] counted h = absurd h
    sizes_in-Chunks (d ∷ ds) (c ∷ cs) counted h =
        let rest = sizes_in-Chunks ds cs (λ e o. counted e (omega arith)) h.3 in
        let here = counted d (ground arith) in
        elim (Option-cases (lookup d s.refcount)) [
          | inl missing ↦ absurd (ground (arith, here))
          | inr (r, found) ↦
              let (k, size) = inv.present d r found in
              let same : k.content ≡ c =
                W.no_clash k.content c k.known h.0 (k.digest_lem ∙ sym h.1) in
              let exact : r.size ≡ length c = size ∙ ap length same in
              ground (arith, found, exact, rest, length-append c (concat cs))
        ]

    file_length :
        (f : Text) (ds : List Text)
        → lookup f s.manifest.files ≡ some ds
        → sizes_in s.refcount ds ≡ read_length s f
    file_length f ds found =
        let (cs, h, _, run) = read_lem W nothing s inv f ds found in
        let counted : (d : Text) → 0 < occurs d ds → 0 < count_of (lookup d s.refcount) = λ d o.
          omega
            (arith, occurs-le-named d f ds s.manifest.files inv.files_nodup found, inv.counts d) in
        sizes_in-Chunks ds cs counted h ∙ rw run refl

    counted_bytes :
        total bytes_at s.refcount ≡ total (λ k r. r.size * named k s.manifest.files) s.refcount
    counted_bytes = total-eq bytes_at _ s.refcount inv.refs_nodup λ k r found.
        let same : r.count ≡ named k s.manifest.files = ground (arith, inv.counts k, found) in
        rw same refl

    -- In a store in order the logical size that `stats` reports is the sum, over the files, of the
    -- number of bytes that reading the file gives.
    pub total_bytes-read :
        Tidy W s → s.stats.total_bytes ≡ total (λ f ds. read_length s f) s.manifest.files
    total_bytes-read tidy =
        tidy.total_bytes
        ∙ counted_bytes
        ∙ total-named s.manifest.files s.refcount inv.refs_nodup
        ∙ total-eq _ _ s.manifest.files inv.files_nodup file_length
