-- ===== src/Postgres/Streams.antt =====
-- The ways of core/src/store/mod.rs to ingest a stream, a path or content-defined chunks, on a store
-- with a `PostgresMetadata`.
use chunkstore.Base.{
  ℕ, zero, suc, ◌≡◌, ◌∙◌, sym, refl, ap, false, ◌==◌, if◌then◌else◌, some, ◌⊎◌, inl, inr, List, [],
  ◌++◌, arith,
}
use chunkstore.Base.Text.{Text, Bytes, codes}
use chunkstore.Error.{ok, io_error, invalid_argument}
use chunkstore.Exec.{Exec, fail, lift, ◌>>=◌, each-append}
use chunkstore.Chunker.{for_each_chunk, chunk_reader}
use chunkstore.Chunker.Trait.{Chunker, ReadEvent, content}
use chunkstore.Chunker.Drive.{for_each_chunk-eq-each, chunk_reader-eq-collect}
use chunkstore.Chunker.Fixed
use chunkstore.Chunker.Fixed.{fixed_chunker}
use chunkstore.Chunker.Fixed.Split.{IsSplit-unique}
use chunkstore.Chunker.Fixed.Feed.{chunk_reader_fixed, whole_fixed}
use chunkstore.Chunker.Cdc
use chunkstore.Chunker.Cdc.{cdc_chunker, default_config}
use chunkstore.Chunker.Cdc.Tiles.{IsFastCdc, collect_cdc, finish-Cuts, keeping}
use chunkstore.Store.{Platform, IngestSession, new_session, Store}
use chunkstore.Store.Ingest.{default-IsSane, default-IsWithin}
use chunkstore.Postgres.Server.{Server}
use chunkstore.Postgres.Shared.{
  SharedStore, accept, feed_all, run_session, ingest_chunks, ingest_with_chunker, ingest_fixed,
}

module _ (P : Platform) (Q : Server) where
  -- The loop of `for_each_chunk`, without the state of the chunker that it leaves.
  abbrev pub stream :
      (C : Chunker) → List ReadEvent → C.State → Exec (IngestSession × Store P) (Unit {0})
  stream C reader c t = let (r, (_, t')) = for_each_chunk C (accept P Q) reader (c, t) in (r, t')

  unfoldable pub ingest_reader_with_chunker :
      (C : Chunker) → Text → List ReadEvent → C.State → Exec (SharedStore P Q) (List Text)
  ingest_reader_with_chunker C file_id reader c = run_session P Q (stream C reader c) file_id

  unfoldable pub ingest_cdc : Text → Bytes → Exec (SharedStore P Q) (List Text)
  ingest_cdc file_id content = do
    chunker ← lift Cdc.with_defaults
    ingest_with_chunker P Q (cdc_chunker P.fast_cdc) file_id content chunker

  unfoldable pub ingest_reader_fixed :
      Text → List ReadEvent → ℕ → Exec (SharedStore P Q) (List Text)
  ingest_reader_fixed file_id reader chunk_size =
      if chunk_size == 0
      then fail (invalid_argument (codes "chunk_size must be greater than 0"))
      else ingest_reader_with_chunker fixed_chunker file_id reader (Fixed.new chunk_size)

  unfoldable pub ingest_reader_cdc : Text → List ReadEvent → Exec (SharedStore P Q) (List Text)
  ingest_reader_cdc file_id reader = do
    chunker ← lift Cdc.with_defaults
    ingest_reader_with_chunker (cdc_chunker P.fast_cdc) file_id reader chunker

  -- What `File::open` gives, as bytes to read or an error.
  abbrev from_file :
      (List ReadEvent → Exec (SharedStore P Q) (List Text))
      → Text ⊎ List ReadEvent
      → Exec (SharedStore P Q) (List Text)
  from_file ingest_reader (inl e) = fail (io_error e)
  from_file ingest_reader (inr file) = ingest_reader file

  unfoldable pub ingest_path : Text → Text ⊎ List ReadEvent → Exec (SharedStore P Q) (List Text)
  ingest_path file_id file =
      from_file (λ reader. ingest_reader_fixed file_id reader Fixed.default_chunk_size) file

  unfoldable pub ingest_path_cdc : Text → Text ⊎ List ReadEvent → Exec (SharedStore P Q) (List Text)
  ingest_path_cdc file_id file = from_file (ingest_reader_cdc file_id) file

  -- A stream that is cut without an error is ingested as the list of its chunks.
  streamed :
      (C : Chunker) (f : Text) (reader : List ReadEvent) (c : C.State) (cs : List Bytes)
      (s : SharedStore P Q)
      → (chunk_reader C reader c).0 ≡ ok cs
      → ingest_reader_with_chunker C f reader c s ≡ ingest_chunks P Q f cs s
  unfolding ingest_reader_with_chunker ingest_chunks
  streamed C f reader c cs s e =
      ap (λ m. run_session P Q (λ _. m) f s)
        (for_each_chunk-eq-each C (accept P Q) reader c cs (new_session, s.store) e)

  -- And so is a content.
  fed_whole :
      (C : Chunker) (f : Text) (data' : Bytes) (c : C.State) (early last : List Bytes)
      (c' : C.State) (s : SharedStore P Q)
      → C.feed data' c ≡ (ok early, c')
      → (C.finish c').0 ≡ ok last
      → ingest_with_chunker P Q C f data' c s ≡ ingest_chunks P Q f (early ++ last) s
  unfolding ingest_with_chunker ingest_chunks feed_all
  fed_whole C f data' c early last c' s fed ended =
      rw (fed, ended)
        (ap (λ m. run_session P Q (λ _. m) f s)
          (sym (each-append (accept P Q) early last (new_session, s.store))))

  fixed_streamed :
      (f : Text) (reader : List ReadEvent) (data' : Bytes) (n : ℕ) (s : SharedStore P Q)
      → content reader ≡ some data'
      → ingest_reader_fixed f reader n s ≡ ingest_fixed P Q f data' n s
  unfolding ingest_reader_fixed ingest_fixed
  fixed_streamed f reader data' zero s e = refl
  fixed_streamed f reader data' (suc n) s e =
      let (cs, r, whole, split) = chunk_reader_fixed reader (suc n) data' (omega arith) e in
      let (early, last, c', fed, ended, whole', split') = whole_fixed (suc n) data' (omega arith) in
      let same =
        IsSplit-unique (suc n) cs (early ++ last) (omega arith) split split' (whole ∙ sym whole') in
      let no : (suc n == 0) ≡ false = ground arith in
      rw no (
        streamed fixed_chunker f reader (Fixed.new (suc n)) cs s r
        ∙ ap (λ ds. ingest_chunks P Q f ds s) same
        ∙ sym (fed_whole fixed_chunker f data' (Fixed.new (suc n)) early last c' s fed ended))

  -- Streaming a file into a store on Postgres, where no read fails, is the same call as handing its
  -- content over whole, result, store and database: in chunks of one size, of any size, and in
  -- content-defined chunks.
  pub ingest_reader-eq-whole_pg :
      (law : IsFastCdc P.fast_cdc) (f : Text) (reader : List ReadEvent) (data' : Bytes) (n : ℕ)
      (s : SharedStore P Q)
      → content reader ≡ some data'
      → (ingest_reader_fixed f reader n s ≡ ingest_fixed P Q f data' n s)
        × (ingest_reader_cdc f reader s ≡ ingest_cdc f data' s)
  unfolding ingest_cdc ingest_reader_cdc Cdc.with_defaults Cdc.new Cdc.feed
  ingest_reader-eq-whole_pg law f reader data' n s e =
      let (cs, ended, whole, sizes) =
        finish-Cuts P.fast_cdc law default_config data' default-IsSane default-IsWithin in
      let start = keeping default_config [] in
      let cut : (chunk_reader (cdc_chunker P.fast_cdc) reader start).0 ≡ ok cs =
        rw chunk_reader-eq-collect
          (collect_cdc P.fast_cdc reader default_config [] data' e ∙ ended) in
      (
        fixed_streamed f reader data' n s e,
        streamed (cdc_chunker P.fast_cdc) f reader start cs s cut
            ∙ sym (
                fed_whole (cdc_chunker P.fast_cdc) f data' start [] cs
                  (keeping default_config data') s refl ended),
      )
