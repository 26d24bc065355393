-- ===== src/Chunker/Cdc.antt =====
-- core/src/chunker/cdc.rs. Where to cut is decided by the `fastcdc` crate: a parameter, which gives
-- the offset and the length of each chunk.
pub mod Tiles
use chunkstore.Base.{
  ℕ, ◌*◌, Bool, true, false, ◌||◌, if◌then◌else◌, ltb, ◌==◌, Option, none, some, List, [], ◌∷◌,
  ◌++◌, map, take, drop, is_empty,
}
use chunkstore.Base.Text.{Bytes, codes}
use chunkstore.Error.{Result, ok, err, hang, invalid_argument}
use chunkstore.Exec.{Exec}
use chunkstore.Chunker.Trait.{Chunker}

pub record CdcConfig : Type 0 where
  pub min_size : ℕ
  pub avg_size : ℕ
  pub max_size : ℕ
  pub window_size : ℕ

abbrev pub default_config : CdcConfig
default_config = record {
  min_size = 256 * 1024;
  avg_size = 4 * 1024 * 1024;
  max_size = 8 * 1024 * 1024;
  window_size = 64;
}

pub record CdcChunker : Type 0 where
  pub config : CdcConfig
  pub buffer : Bytes

-- The entries of `FastCDC::with_level(data, min, avg, max, Level1)`, or `none` where it panics.
abbrev pub FastCdc : Type 0
FastCdc = Bytes → ℕ → ℕ → ℕ → Option (List (ℕ × ℕ))

-- `data[offset..offset + length]`
abbrev pub slice : Bytes → ℕ × ℕ → Bytes
slice content (offset, length) = take length (drop offset content)

-- The loop over the entries.
abbrev pub push_slices : Bytes → Option (List (ℕ × ℕ)) → Result (List Bytes)
push_slices content none = hang
push_slices content (some entries) = ok (map (slice content) entries)

module _ (fast_cdc : FastCdc) where
  unfoldable pub chunk_bytes : Bytes → CdcConfig → Result (List Bytes)
  chunk_bytes content config =
      if config.min_size == 0 || ltb config.avg_size config.min_size
      then err (invalid_argument (codes "invalid CDC size parameters"))
      else if ltb config.max_size config.avg_size
      then err (invalid_argument (codes "max_size must be >= avg_size"))
      else push_slices content (fast_cdc content config.min_size config.avg_size config.max_size)

  unfoldable pub chunk_cdc : Bytes → Result (List Bytes)
  chunk_cdc content = chunk_bytes content default_config

unfoldable pub new : CdcConfig → Result CdcChunker
new config =
    if config.window_size == 0
    then err (invalid_argument (codes "window_size must be > 0"))
    else ok (record { config = config; buffer = [] })

unfoldable pub with_defaults : Result CdcChunker
unfolding new
with_defaults = new default_config

unfoldable pub feed : Bytes → Exec CdcChunker (List Bytes)
feed content c = (ok [], record c { buffer = c.buffer ++ content })

module _ (fast_cdc : FastCdc) where
  unfoldable pub finish : Exec CdcChunker (List Bytes)
  finish c =
      if is_empty c.buffer
      then (ok [], c)
      else (chunk_bytes fast_cdc c.buffer c.config, record c { buffer = [] })

  abbrev pub cdc_chunker : Chunker
  cdc_chunker = record { State = CdcChunker; feed = feed; finish = finish }
