-- ===== src/Manifest.antt =====
-- core/src/store/manifest.rs: the digests of each file, in order, and its length.
use chunkstore.Base.{ℕ, if◌then◌else◌, Option, List, [], ◌++◌, is_empty}
use chunkstore.Base.Text.{Text, codes}
use chunkstore.Base.Map.{Map, lookup, insert, remove}
use chunkstore.Error.{Result, ok, err, ok_or, not_found, invalid_argument}
use chunkstore.Exec.{Exec}

pub record Manifest : Type 0 where
  pub files : Map (List Text)
  pub file_bytes : Map ℕ

abbrev pub new : Manifest
new = record { files = []; file_bytes = [] }

unfoldable pub try_get : Text → Manifest → Option (List Text)
try_get file_id m = lookup file_id m.files

-- `insert` of the source.
unfoldable pub insert_file : Text → List Text → ℕ → Exec Manifest (Unit {0})
insert_file file_id digests file_bytes m =
    if is_empty file_id then (err (invalid_argument (codes "file_id cannot be empty")), m) else (
      ok tt,
      record {
        files = insert file_id digests m.files;
        file_bytes = insert file_id file_bytes m.file_bytes;
      },
    )

abbrev pub no_file : Text → Result (List Text)
no_file file_id = err (not_found (codes "file " ++ file_id))

unfoldable pub get : Text → Manifest → Result (List Text)
get file_id m = ok_or (lookup file_id m.files) (not_found (codes "file " ++ file_id))

-- `remove` of the source: both maps lose the key, found or not.
unfoldable pub remove_file : Text → Exec Manifest (List Text)
remove_file file_id m = (
  ok_or (lookup file_id m.files) (not_found (codes "file " ++ file_id)),
  record { files = remove file_id m.files; file_bytes = remove file_id m.file_bytes },
)
