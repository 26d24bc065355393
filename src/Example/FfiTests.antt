-- ===== src/Example/FfiTests.antt =====
-- The theorems about the C interface, applied at callbacks that keep a map and at an empty store.
use chunkstore.Base.{
  ◌≡◌, refl, inr, true, Option, none, some, is_some, List, [], ◌∷◌, if◌then◌else◌,
}
use chunkstore.Base.Text.{Bytes}
use chunkstore.Base.Map.{Map, lookup, insert, remove}
use chunkstore.Error.{ok}
use chunkstore.Ffi.Types.{ℤ, pos, negsuc, chunkstore_ok, ChunkBackendCallbacks, ReadAnswer}
use chunkstore.Ffi.Utf8.{nul_position}
use chunkstore.Ffi.Callback.{get, put, exists, delete}
use chunkstore.Ffi.CallbackLaws.{IsMap, shown, not_empty, callbacks_lem}
use chunkstore.Ffi.Handle.{Libraries, Handle, fs_store}
use chunkstore.Ffi.Calls.{
  chunkstore_read, chunkstore_ingest_reader, chunkstore_ingest_fixed,
  chunkstore_ingest_with_digests, chunkstore_ingest_cdc_with_digests, chunkstore_read_to_writer,
}
use chunkstore.Ffi.Replying.{IsReply}
use chunkstore.Ffi.Contract.{Request, run, run-IsReply}
use chunkstore.Ffi.Streaming.{chunkstore_ingest_reader-eq-whole}
use chunkstore.Ffi.Writing.{gather, as_read, chunkstore_read-eq-gathered}
use chunkstore.Manifest
use chunkstore.Stats.{default_stats}
use chunkstore.Store.{ChunkStore}
use chunkstore.FsBackend.Files.{Disk}
use chunkstore.Example.Disk.{disk, Nodes, store_dir}
use chunkstore.Example.Encoding.{numbers}
use chunkstore.Example.Hash.{padded, every_byte, every_byte-IsFastCdc}
use chunkstore.Example.Platform.{first}
use chunkstore.Example.Stores.{name}

-- Callbacks on an association list.
abbrev keep : ChunkBackendCallbacks (Map Bytes)
keep = record {
  get = some (λ k u. (shown (lookup k u), u));
  put = some (λ k v u. (chunkstore_ok, insert k v u));
  exists = some (λ k u. (pos (if is_some (lookup k u) then 1 else 0), u));
  delete = some (λ k u. (chunkstore_ok, remove k u));
}

keep-IsMap : IsMap keep
keep-IsMap = record {
  view = λ u k. lookup k u;
  written = insert;
  deleted = remove;
  get_lem = refl;
  put_lem = refl;
  exists_lem = refl;
  delete_lem = refl;
}

clean : nul_position 0 name ≡ none
unfolding nul_position
clean = refl

callbacks_lem_example :
    (get keep name [] ≡ (ok (not_empty (keep-IsMap.view [] name)), []))
    × (exists keep name [] ≡ (ok (is_some (keep-IsMap.view [] name)), []))
    × (put keep name first [] ≡ (ok tt, keep-IsMap.written name first []))
    × (delete keep name [] ≡ (ok tt, keep-IsMap.deleted name []))
callbacks_lem_example = callbacks_lem keep keep-IsMap name first [] clean

abbrev L : Libraries
L = record {
  sha256 = padded;
  json = numbers;
  fast_cdc = every_byte;
  fs = disk;
  open_file = λ path. inr [];
}

-- An empty store in the directory of the disk.
abbrev on_disk : ChunkStore (Disk Nodes)
on_disk = record {
  backend = record { counter = 0; files = λ p. none };
  manifest = Manifest.new;
  refcount = [];
  stats = default_stats;
  codec = none;
}

abbrev handle : Option (Handle L keep)
handle = some (fs_store store_dir on_disk)

run-IsReply_example :
    IsReply (run L keep (Request.read_to_writer (some name) (some gather) true) ([], handle)).0
run-IsReply_example =
    run-IsReply L keep (Request.read_to_writer (some name) (some gather) true) [] handle

abbrev pieces : List ReadAnswer
pieces =
    record { rc = pos 0; buf = 1 ∷ 9 ∷ []; out_len = 1 }
    ∷ record { rc = pos 0; buf = 2 ∷ 3 ∷ []; out_len = 2 }
    ∷ []

abbrev whole : Bytes
whole = 1 ∷ 2 ∷ 3 ∷ []

chunkstore_ingest_reader-eq-whole_example :
    (chunkstore_ingest_reader L keep (some name) (some pieces) 2 (pos 0) true true handle
      ≡ chunkstore_ingest_fixed L keep (some name) (some whole) 3 2 true true handle)
    × (chunkstore_ingest_reader L keep (some name) (some pieces) 0 (pos 0) true true handle
        ≡ chunkstore_ingest_with_digests L keep (some name) (some whole) 3 true true handle)
    × (chunkstore_ingest_reader L keep (some name) (some pieces) 1 (pos 1) true true handle
        ≡ chunkstore_ingest_cdc_with_digests L keep (some name) (some whole) 3 true true handle)
unfolding chunkstore.Ffi.Types.read_source
chunkstore_ingest_reader-eq-whole_example =
    chunkstore_ingest_reader-eq-whole L keep (some name) pieces whole 1 (pos 1) true true handle
      refl every_byte-IsFastCdc refl

chunkstore_read-eq-gathered_example : chunkstore_read L keep (some name) true true true handle ≡ (
  as_read
      (chunkstore_read_to_writer L keep (some name) (some gather) true ([], handle)).1.0
      (chunkstore_read_to_writer L keep (some name) (some gather) true ([], handle)).0,
  (chunkstore_read_to_writer L keep (some name) (some gather) true ([], handle)).1.1,
)
chunkstore_read-eq-gathered_example = chunkstore_read-eq-gathered L keep (some name) true handle
