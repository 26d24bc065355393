-- ===== src/Store/Ingest.antt =====
-- Every way to ingest of core/src/store/mod.rs comes down to `ingest_chunks` on a cut of the content.
use chunkstore.Base.{
  ℕ, zero, suc, ◌<◌, ◌≡◌, ◌∙◌, sym, refl, ap, false, ◌==◌, some, List, [], ◌++◌, arith, concat, All,
}
use chunkstore.Base.Text.{Text, Bytes}
use chunkstore.Error.{ok}
use chunkstore.Exec.{each-append}
use chunkstore.Chunker.{chunk_reader}
use chunkstore.Chunker.Trait.{Chunker, ReadEvent, content}
use chunkstore.Chunker.Drive.{for_each_chunk-eq-each, chunk_reader-eq-collect}
use chunkstore.Chunker.Fixed
use chunkstore.Chunker.Fixed.{fixed_chunker}
use chunkstore.Chunker.Fixed.Split.{IsSplit, IsSplit-unique}
use chunkstore.Chunker.Fixed.Feed.{chunk_reader_fixed, whole_fixed}
use chunkstore.Chunker.Cdc
use chunkstore.Chunker.Cdc.{CdcChunker, cdc_chunker, default_config, FastCdc}
use chunkstore.Chunker.Cdc.Tiles.{
  IsFastCdc, IsSized, collect_cdc, finish-Cuts, IsSane, keeping, IsWithin,
}
use chunkstore.Store.Types.{Platform}
use chunkstore.Store.Chunks.{Store}
use chunkstore.Store.Files.{
  accept, feed_all, run_session, ingest_chunks, ingest_with_chunker, ingest_reader_with_chunker,
  ingest_fixed, ingest_reader_fixed, ingest_cdc, ingest_reader_cdc, new_session,
}

pub default-IsSane : IsSane default_config
default-IsSane = (omega arith, omega arith, omega arith)

pub default-IsWithin : IsWithin default_config
default-IsWithin = (omega arith, omega arith, omega arith, omega arith, omega arith, omega arith)

module _ (P : Platform) where
  -- A stream that is cut without an error is ingested as the list of its chunks.
  pub ingest_reader_with_chunker_lem :
      (C : Chunker) (f : Text) (reader : List ReadEvent) (c : C.State) (cs : List Bytes)
      (s : Store P)
      → (chunk_reader C reader c).0 ≡ ok cs
      → ingest_reader_with_chunker P C f reader c s ≡ ingest_chunks P f cs s
  unfolding ingest_reader_with_chunker ingest_chunks
  ingest_reader_with_chunker_lem C f reader c cs s e =
      ap (λ m. run_session P (λ _. m) f s)
        (for_each_chunk-eq-each C (accept P) reader c cs (new_session, s) e)

  pub ingest_with_chunker_lem :
      (C : Chunker) (f : Text) (data' : Bytes) (c : C.State) (early last : List Bytes)
      (c' : C.State) (s : Store P)
      → C.feed data' c ≡ (ok early, c')
      → (C.finish c').0 ≡ ok last
      → ingest_with_chunker P C f data' c s ≡ ingest_chunks P f (early ++ last) s
  unfolding ingest_with_chunker ingest_chunks feed_all
  ingest_with_chunker_lem C f data' c early last c' s fed ended =
      rw (fed, ended)
        (ap (λ m. run_session P (λ _. m) f s)
          (sym (each-append (accept P) early last (new_session, s))))

  -- `ingest_fixed` with a positive size cuts the content into chunks of that size, the last one
  -- shorter if need be, and ingests them as `ingest_chunks` does.
  pub ingest_fixed_lem :
      (data' : Bytes) (n : ℕ)
      → 0 < n
      → (cs : List Bytes) × (concat cs ≡ data')
        × IsSplit n cs
        × ((f : Text) (s : Store P) → ingest_fixed P f data' n s ≡ ingest_chunks P f cs s)
  unfolding ingest_fixed
  ingest_fixed_lem data' zero p = absurd (omega arith)
  ingest_fixed_lem data' (suc n) p =
      let (early, last, c', fed, ended, whole, split) = whole_fixed (suc n) data' p in
      let no : (suc n == 0) ≡ false = ground arith in
      (
        early ++ last,
        whole,
        split,
        λ f s. rw no (
            ingest_with_chunker_lem fixed_chunker f data' (Fixed.new (suc n)) early last c' s fed
              ended),
      )

  -- Streaming a file in chunks of one size, of any size, is the same call as handing it over whole,
  -- result and store: where no read fails, however the reader splits the content.
  pub ingest_reader_fixed-eq-ingest_fixed :
      (f : Text) (reader : List ReadEvent) (data' : Bytes) (n : ℕ) (s : Store P)
      → content reader ≡ some data'
      → ingest_reader_fixed P f reader n s ≡ ingest_fixed P f data' n s
  unfolding ingest_reader_fixed ingest_fixed
  ingest_reader_fixed-eq-ingest_fixed f reader data' zero s e = refl
  ingest_reader_fixed-eq-ingest_fixed f reader data' (suc n) s e =
      let (cs, r, whole, split) = chunk_reader_fixed reader (suc n) data' (omega arith) e in
      let (ds, whole', split', fixed) = ingest_fixed_lem data' (suc n) (omega arith) in
      let same : cs ≡ ds =
        IsSplit-unique (suc n) cs ds (omega arith) split split' (whole ∙ sym whole') in
      let no : (suc n == 0) ≡ false = ground arith in
      let streamed : ingest_reader_fixed P f reader (suc n) s ≡ ingest_chunks P f cs s =
        rw no (ingest_reader_with_chunker_lem fixed_chunker f reader (Fixed.new (suc n)) cs s r) in
      streamed ∙ rw same (sym (fixed f s))

  module _ (law : IsFastCdc P.fast_cdc) where
    cdc_chunks :
        (data' : Bytes)
        → (cs : List Bytes) × (concat cs ≡ data')
          × All (IsSized default_config.max_size) cs
          × ((f : Text) (s : Store P) → ingest_cdc P f data' s ≡ ingest_chunks P f cs s)
          × ((f : Text) (reader : List ReadEvent) (s : Store P)
              → content reader ≡ some data'
              → ingest_reader_cdc P f reader s ≡ ingest_chunks P f cs s)
    unfolding ingest_cdc ingest_reader_cdc Cdc.with_defaults Cdc.new Cdc.feed
    cdc_chunks data' =
        let (cs, ended, whole, sizes) =
          finish-Cuts P.fast_cdc law default_config data' default-IsSane default-IsWithin in
        let start = keeping default_config [] in
        (
          cs,
          whole,
          sizes,
          λ f s.
              ingest_with_chunker_lem (cdc_chunker P.fast_cdc) f data' start [] cs
                (keeping default_config data') s refl ended,
          λ f reader s e.
              ingest_reader_with_chunker_lem (cdc_chunker P.fast_cdc) f reader start cs s (
                rw chunk_reader-eq-collect
                  (collect_cdc P.fast_cdc reader default_config [] data' e ∙ ended)),
        )

    -- `ingest_cdc` ingests chunks that make up the content, none of them empty or longer than the
    -- default maximum, as `ingest_chunks` does.
    pub ingest_cdc_lem :
        (data' : Bytes)
        → (cs : List Bytes) × (concat cs ≡ data')
          × All (IsSized default_config.max_size) cs
          × ((f : Text) (s : Store P) → ingest_cdc P f data' s ≡ ingest_chunks P f cs s)
    ingest_cdc_lem data' =
        let (cs, whole, sizes, run, streamed) = cdc_chunks data' in (cs, whole, sizes, run)

    -- Streaming a file in content-defined chunks is the same call as handing it over whole, result
    -- and store, where no read fails.
    pub ingest_reader_cdc-eq-ingest_cdc :
        (f : Text) (reader : List ReadEvent) (data' : Bytes) (s : Store P)
        → content reader ≡ some data'
        → ingest_reader_cdc P f reader s ≡ ingest_cdc P f data' s
    ingest_reader_cdc-eq-ingest_cdc f reader data' s e =
        let (cs, whole, sizes, run, streamed) = cdc_chunks data' in
        streamed f reader s e ∙ sym (run f s)
