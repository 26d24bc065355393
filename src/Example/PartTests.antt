-- ===== src/Example/PartTests.antt =====
-- The theorems about the parts of the program, applied at concrete values.
use chunkstore.Base.{
  map, ℕ, suc, ◌+◌, ◌-◌, ◌<◌, ◌≡◌, ◌≢◌, ◌↔◌, ◌==◌, if◌then◌else◌, refl, ◌⊎◌, inl, inr, Bool, true,
  false, List, [], ◌∷◌, ◌++◌, Option, none, some, arith, length, concat, all, is_some,
}
use chunkstore.Base.Text.{Text, Bytes, codes, is_ascii_hexdigit}
use chunkstore.Error.{ok, hang}
use chunkstore.Exec.{each}
use chunkstore.Chunker.{chunk_reader, for_each_chunk, push}
use chunkstore.Chunker.Trait.{ReadEvent, bytes}
use chunkstore.Chunker.Drive.{for_each_chunk-eq-each, visible}
use chunkstore.Chunker.Fixed
use chunkstore.Chunker.Fixed.{fixed_chunker, drain}
use chunkstore.Chunker.Fixed.Feed.{Emits, chunk_reader_fixed, drain_zero}
use chunkstore.Chunker.Cdc
use chunkstore.Chunker.Cdc.{cdc_chunker, default_config, chunk_bytes, CdcConfig}
use chunkstore.Chunker.Cdc.Tiles.{Cuts, chunk_reader_cdc}
use chunkstore.Store.Ingest.{default-IsSane, default-IsWithin}
use chunkstore.FsBackend.Key.{
  Component, root_dir, normal, key_to_path, components, component, front,
}
use chunkstore.FsBackend.Paths.{key_to_path_inside, key_to_path-double_slash}
use chunkstore.Example.Hash.{every_byte, every_byte-IsFastCdc}

abbrev pieces : List ReadEvent
pieces = bytes (1 ∷ []) ∷ bytes (2 ∷ 3 ∷ []) ∷ []

abbrev whole : Bytes
whole = 1 ∷ 2 ∷ 3 ∷ []

chunk_reader_fixed_example : Emits 2 whole (chunk_reader fixed_chunker pieces (Fixed.new 2))
chunk_reader_fixed_example = chunk_reader_fixed pieces 2 whole (omega arith) refl

drain_zero_example : drain 5 0 (1 ∷ []) [] ≡ hang
drain_zero_example = drain_zero 5 (1 ∷ []) []

for_each_chunk-eq-each_example :
    visible (for_each_chunk fixed_chunker push pieces (Fixed.new 2, []))
    ≡ each push ((1 ∷ 2 ∷ []) ∷ (3 ∷ []) ∷ []) []
unfolding chunk_reader for_each_chunk Fixed.feed Fixed.finish Fixed.new drain each
for_each_chunk-eq-each_example =
    for_each_chunk-eq-each fixed_chunker push pieces (Fixed.new 2) ((1 ∷ 2 ∷ []) ∷ (3 ∷ []) ∷ []) []
      refl

chunk_reader_cdc_example :
    Cuts default_config.max_size whole
      (chunk_reader
        (cdc_chunker every_byte)
        pieces
        (record { config = default_config; buffer = [] })).0
unfolding Cdc.new
chunk_reader_cdc_example =
    chunk_reader_cdc every_byte every_byte-IsFastCdc pieces default_config
      (record { config = default_config; buffer = [] }) whole default-IsSane default-IsWithin refl
      refl

abbrev root : List Component
root = root_dir ∷ normal (100 ∷ []) ∷ []

abbrev below : List Component
below = root_dir ∷ normal (100 ∷ []) ∷ normal (97 ∷ []) ∷ normal (98 ∷ []) ∷ []

doubled : key_to_path root (97 ∷ 47 ∷ 47 ∷ 98 ∷ []) ≡ ok below
unfolding key_to_path components component front codes chunkstore.Base.Text.Text-discrete
doubled = refl

key_to_path_inside_example : (names : List Text) × (below ≡ root ++ map normal names)
key_to_path_inside_example = key_to_path_inside root below (97 ∷ 47 ∷ 47 ∷ 98 ∷ []) doubled

key_to_path-double_slash_example : key_to_path root (97 ∷ 47 ∷ 98 ∷ []) ≡ ok below
key_to_path-double_slash_example = key_to_path-double_slash root below 97 [] (98 ∷ []) doubled
