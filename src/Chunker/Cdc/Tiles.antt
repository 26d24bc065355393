-- ===== src/Chunker/Cdc/Tiles.antt =====
-- What the content-defined chunker of core/src/chunker/cdc.rs emits.
use chunkstore.Base.{
  ℕ, zero, suc, ◌+◌, ◌≤◌, ◌<◌, ◌≡◌, refl, sym, ◌∙◌, inl, inr, ◌⊎◌, some, List, [], ◌∷◌, ◌++◌, map,
  arith, length, take, drop, concat, All, length-drop, length-take, take-append-drop, append_assoc,
  append-nil, Option-cases,
}
use chunkstore.Base.Text.{Bytes, codes}
use chunkstore.Error.{Result, ok, err, hang, invalid_argument}
use chunkstore.Exec.{continue, pure}
use chunkstore.Chunker.Trait.{ReadEvent, bytes, failed, content}
use chunkstore.Chunker.{chunk_reader}
use chunkstore.Chunker.Drive.{collect, chunk_reader-eq-collect}
use chunkstore.Chunker.Cdc.{
  CdcConfig, CdcChunker, FastCdc, slice, chunk_bytes, new, feed, finish, cdc_chunker,
}

-- The entries cover what lies between `from` and `to` without gap or overlap, each with between 1
-- and `max` bytes.
abbrev pub Tiles : ℕ → ℕ → ℕ → List (ℕ × ℕ) → Type 0
Tiles max from to [] = from ≡ to
Tiles max from to ((offset, size) ∷ entries) =
    (offset ≡ from)
    × (0 < size)
    × (size ≤ max)
    × (from + size ≤ to)
    × Tiles max (from + size) to entries

-- The sizes pass the checks of `chunk_bytes`.
abbrev pub IsSane : CdcConfig → Type 0
IsSane c = (0 < c.min_size) × (c.min_size ≤ c.avg_size) × (c.avg_size ≤ c.max_size)

-- The limits MINIMUM_MIN to MAXIMUM_MAX that `FastCDC::with_level` asserts.
abbrev pub IsWithin : CdcConfig → Type 0
IsWithin c =
    (64 ≤ c.min_size)
    × (c.min_size ≤ 1048576)
    × (256 ≤ c.avg_size)
    × (c.avg_size ≤ 4194304)
    × (1024 ≤ c.max_size)
    × (c.max_size ≤ 16777216)

-- What the `fastcdc` crate documents for sizes in order and within its limits: the chunks follow
-- one another from the first byte to the last, and none is longer than `max_size`.
pub record IsFastCdc (fast_cdc : FastCdc) : Type 0 where
  pub tiles :
      (content : Bytes) (config : CdcConfig)
      → IsSane config
      → IsWithin config
      → (entries : List (ℕ × ℕ)) × (fast_cdc content config.min_size config.avg_size config.max_size
          ≡ some entries)
        × Tiles config.max_size 0 (length content) entries

drop-nil : {A : Type 0} (m : ℕ) → drop {A = A} m [] ≡ []
drop-nil zero = refl
drop-nil (suc m) = refl

drop-drop : {A : Type 0} (n m k : ℕ) (xs : List A) → n + m ≡ k → drop m (drop n xs) ≡ drop k xs
drop-drop zero m k xs e = let same : m ≡ k = omega arith in rw same
drop-drop (suc n) m zero xs e = absurd (omega arith)
drop-drop (suc n) m (suc k) [] e = drop-nil m
drop-drop (suc n) m (suc k) (x ∷ xs) e = drop-drop n m k xs (omega arith)

drop_all : {A : Type 0} (xs : List A) → drop (length xs) xs ≡ []
drop_all [] = refl
drop_all (x ∷ xs) = drop_all xs

concat_slices :
    (data' : Bytes) (max from : ℕ) (entries : List (ℕ × ℕ))
    → Tiles max from (length data') entries
    → concat (map (slice data') entries) ≡ drop from data'
concat_slices data' max from [] t = rw t (sym (drop_all data'))
concat_slices data' max from ((offset, size) ∷ entries) t =
    let (starts, _, _, _, rest) = t in
    rw (starts, concat_slices data' max (from + size) entries rest)
      (rw (← drop-drop from size (from + size) data' refl)
        (take-append-drop size (drop from data')))

abbrev pub IsSized : ℕ → Bytes → Type 0
IsSized max chunk = (0 < length chunk) × (length chunk ≤ max)

IsSized-slices :
    (data' : Bytes) (max from : ℕ) (entries : List (ℕ × ℕ))
    → Tiles max from (length data') entries
    → All (IsSized max) (map (slice data') entries)
IsSized-slices data' max from [] t = tt
IsSized-slices data' max from ((offset, size) ∷ entries) t =
    let (starts, _, _, _, rest) = t in
    let exact : length (take size (drop offset data')) ≡ size =
      length-take size (drop offset data') (omega (arith, length-drop offset data')) in
    (
      (omega (arith, exact), omega (arith, exact)),
      IsSized-slices data' max (from + size) entries rest,
    )

-- Chunks that make up `data'`, none of them empty or longer than `max`.
abbrev pub Cuts : ℕ → Bytes → Result (List Bytes) → Type 0
Cuts max data' r =
    (chunks : List Bytes) × (r ≡ ok chunks) × (concat chunks ≡ data') × All (IsSized max) chunks

module _ (fast_cdc : FastCdc) (law : IsFastCdc fast_cdc) where
  -- Sizes in order and within the limits pass the checks, and the chunks make up the content.
  pub chunk_bytes-Cuts :
      (data' : Bytes) (config : CdcConfig)
      → IsSane config
      → IsWithin config
      → Cuts config.max_size data' (chunk_bytes fast_cdc data' config)
  unfolding chunk_bytes
  chunk_bytes-Cuts data' config sane within =
      let (entries, cut, t) = law.tiles data' config sane within in
      (
        map (slice data') entries,
        ground (arith, cut),
        concat_slices data' config.max_size 0 entries t,
        IsSized-slices data' config.max_size 0 entries t,
      )

abbrev pub keeping : CdcConfig → Bytes → CdcChunker
keeping config buffer = record { config = config; buffer = buffer }

after_none {ℓ} :
    {C : Type ℓ} (m : Result (List Bytes) × C)
    → (continue m.0 (λ later. pure ([] ++ later)) m.1).0 ≡ m.0
after_none (ok chunks, c) = refl
after_none (err e, c) = refl
after_none (hang, c) = refl

module _ (fast_cdc : FastCdc) where
  finish_at_end :
      (config : CdcConfig) (buffer data' : Bytes)
      → some [] ≡ some data'
      → (finish fast_cdc (keeping config buffer)).0
        ≡ (finish fast_cdc (keeping config (buffer ++ data'))).0
  finish_at_end config buffer data' e = let same : [] ≡ data' = cc in rw (← same, append-nil)

  -- The chunker keeps all it is fed and emits nothing before the end.
  pub collect_cdc :
      (reader : List ReadEvent) (config : CdcConfig) (buffer data' : Bytes)
      → content reader ≡ some data'
      → (collect (cdc_chunker fast_cdc) reader (keeping config buffer)).0
        ≡ (finish fast_cdc (keeping config (buffer ++ data'))).0
  unfolding collect feed
  collect_cdc [] config buffer data' e = finish_at_end config buffer data' e
  collect_cdc (failed x ∷ reader) config buffer data' e = cc
  collect_cdc (bytes [] ∷ reader) config buffer data' e = finish_at_end config buffer data' e
  collect_cdc (bytes (b ∷ buf) ∷ reader) config buffer data' e =
      elim (Option-cases (content reader)) [
        | inl failing ↦ absurd (ground arith)
        | inr (later, f) ↦
            let same : (b ∷ buf) ++ later ≡ data' = ground arith in
            after_none (collect (cdc_chunker fast_cdc) reader (keeping config (buffer ++ b ∷ buf)))
            ∙ collect_cdc reader config (buffer ++ b ∷ buf) later f
            ∙ rw (← same, append_assoc)
      ]

  pub finish-Cuts :
      (law : IsFastCdc fast_cdc) (config : CdcConfig) (data' : Bytes)
      → IsSane config
      → IsWithin config
      → Cuts config.max_size data' (finish fast_cdc (keeping config data')).0
  unfolding finish
  finish-Cuts law config [] p w = ([], refl, refl, tt)
  finish-Cuts law config (b ∷ data') p w = chunk_bytes-Cuts fast_cdc law (b ∷ data') config p w

fresh : (config : CdcConfig) (c : CdcChunker) → new config ≡ ok c → c ≡ keeping config []
unfolding new
fresh config c made = ground arith

-- A reader without errors is cut into chunks that make up its content, none of them empty or
-- longer than the maximum, for every configuration whose sizes are in order and within the limits
-- of the `fastcdc` crate.
pub chunk_reader_cdc :
    (fast_cdc : FastCdc) (law : IsFastCdc fast_cdc) (reader : List ReadEvent) (config : CdcConfig)
    (c : CdcChunker) (data' : Bytes)
    → IsSane config
    → IsWithin config
    → new config ≡ ok c
    → content reader ≡ some data'
    → Cuts config.max_size data' (chunk_reader (cdc_chunker fast_cdc) reader c).0
chunk_reader_cdc fast_cdc law reader config c data' p w made e =
    rw (chunk_reader-eq-collect, fresh config c made, collect_cdc fast_cdc reader config [] data' e)
      (finish-Cuts fast_cdc law config data' p w)

-- Sizes that make no sense are refused, whatever the content.
pub chunk_bytes_refuses :
    (fast_cdc : FastCdc) (data' : Bytes) (config : CdcConfig)
    → ¬ IsSane config
    → (chunk_bytes fast_cdc data' config
        ≡ err (invalid_argument (codes "invalid CDC size parameters")))
      ⊎ (chunk_bytes fast_cdc data' config
          ≡ err (invalid_argument (codes "max_size must be >= avg_size")))
unfolding chunk_bytes
chunk_bytes_refuses fast_cdc data' config h = ground arith
