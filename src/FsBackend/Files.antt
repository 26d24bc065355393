-- ===== src/FsBackend/Files.antt =====
-- `FsBackend` of core/src/store/fs_backend.rs on a file system.
use chunkstore.Base.{
  ℕ, zero, suc, ◌==◌, Bool, not, ◌&&◌, if◌then◌else◌, Option, none, some, ◌⊎◌, inl, inr, List, [],
  ◌∷◌, ◌++◌, length, drop,
}
use chunkstore.Base.Text.{Text, Bytes, codes, decimal}
use chunkstore.Base.Word.{add}
use chunkstore.Error.{Result, ok, err, hang, io_error, invalid_argument, ok_or, map_err}
use chunkstore.Exec.{Exec, pure, lift, ◌>>=◌, ◌>>◌}
use chunkstore.Backend.{ChunkBackend}
use chunkstore.Backend.Lawful.{starts_with}
use chunkstore.Store.{is_chunk_digest}
use chunkstore.FsBackend.Key.{Component, root_dir, cur_dir, parent_dir, normal, key_to_path}
use chunkstore.FsBackend.System.{FilePath, Change, FileSystem}

-- The file system, and the process's `WRITE_TMP_COUNTER`.
pub record Disk (S : Type 0) : Type 0 where
  pub counter : ℕ
  pub files : S

abbrev pub last_of : Component → FilePath → FilePath × Component
last_of c [] = ([], c)
last_of c (d ∷ path) = let (front, z) = last_of d path in (c ∷ front, z)

abbrev pub parent_of : FilePath × Component → Option FilePath
parent_of (front, root_dir) = none
parent_of (front, cur_dir) = some front
parent_of (front, parent_dir) = some front
parent_of (front, normal name) = some front

-- `Path::parent`
abbrev pub parent : FilePath → Option FilePath
parent [] = none
parent (c ∷ path) = parent_of (last_of c path)

abbrev pub name_of : FilePath × Component → Option (FilePath × Text)
name_of (front, root_dir) = none
name_of (front, cur_dir) = none
name_of (front, parent_dir) = none
name_of (front, normal name) = some (front, name)

-- `Path::file_name`, with what stands before it.
abbrev pub file_name : FilePath → Option (FilePath × Text)
file_name [] = none
file_name (c ∷ path) = name_of (last_of c path)

-- `path.with_file_name(format!("{file_name}.{unique}.tmp"))`
unfoldable pub tmp_path : FilePath → Text → ℕ → FilePath
tmp_path front name unique =
    front ++ normal (name ++ (codes "." ++ (decimal unique ++ codes ".tmp"))) ∷ []

-- The names of a path, with slashes between them, and `replace('\\', "/")`.
abbrev slashes : Text → Text
slashes [] = []
slashes (c ∷ name) = (if c == 92 then 47 else c) ∷ slashes name

unfoldable pub key_of : FilePath → Text
key_of [] = []
key_of (normal name ∷ []) = slashes name
key_of (normal name ∷ c ∷ path) = slashes name ++ 47 ∷ key_of (c ∷ path)
key_of (_ ∷ path) = key_of path

module _ (F : FileSystem) (root : FilePath) where
  abbrev pub Files : Type 0
  Files = Disk F.State

  -- A call of the file system under `?`.
  abbrev pub change : Change F.State → Exec Files (Unit {0})
  change m s = let (r, x) = m s.files in (map_err r io_error, record s { files = x })

  -- `fetch_add(1)` on the counter.
  abbrev pub next_unique : Exec Files ℕ
  next_unique s = (ok s.counter, record s { counter = add s.counter 1 })

  abbrev pub make_parent : Option FilePath → Exec Files (Unit {0})
  make_parent none = pure tt
  make_parent (some dir) = change (F.create_dir_all dir)

  -- Behind the counter: the temporary file, then the rename.
  unfoldable pub write_tmp : FilePath → FilePath → Bytes → Exec Files (Unit {0})
  write_tmp tmp path content = do
    change (F.create tmp)
    change (F.write_all tmp content)
    change (F.sync_all tmp)
    change (F.rename tmp path)

  unfoldable pub write_atomic : FilePath → Bytes → Exec Files (Unit {0})
  unfolding write_tmp tmp_path
  write_atomic path content = do
    make_parent (parent path)
    named ← lift (ok_or (file_name path) (invalid_argument (codes "path has no file name")))
    unique ← next_unique
    write_tmp (tmp_path named.0 named.1 unique) path content

  abbrev read_file : FilePath → Exec Files (Option Bytes)
  read_file path s = (
    if not (F.is_file path s.files)
        then ok none
        else chunkstore.Error.◌>>=◌ (map_err (F.read path s.files) io_error)
            (λ content. ok (some content)),
    s,
  )

  unfoldable pub get : Text → Exec Files (Option Bytes)
  get key = do path ← lift (key_to_path root key); read_file path

  unfoldable pub put : Text → Bytes → Exec Files (Unit {0})
  unfolding write_atomic
  put key content = do path ← lift (key_to_path root key); write_atomic path content

  unfoldable pub exists : Text → Exec Files Bool
  exists key = do path ← lift (key_to_path root key); (λ s. (ok (F.exists path s.files), s))

  abbrev remove_if : FilePath → Exec Files (Unit {0})
  remove_if path s =
      let (r, s') = change (F.remove_file path) s in
      if F.exists path s.files then (r, s') else (ok tt, s)

  unfoldable pub delete : Text → Exec Files (Unit {0})
  delete key = do path ← lift (key_to_path root key); remove_if path

  -- One entry that is no directory. It lies below the root, so `strip_prefix` takes the root off.
  abbrev pub keep_key : FilePath → Text → List Text → List Text
  keep_key path prefix out =
      let key = key_of (drop (length root) path) in
      if starts_with key prefix then out ++ key ∷ [] else out

  -- The loop over the entries of a directory, with the call on a directory.
  unfoldable pub collect_entries :
      (FilePath → List Text → Result (List Text))
      → F.State
      → FilePath
      → Text
      → List (Text ⊎ Text)
      → List Text
      → Result (List Text)
  collect_entries inside s dir prefix [] out = ok out
  collect_entries inside s dir prefix (inl e ∷ entries) out = err (io_error e)
  collect_entries inside s dir prefix (inr name ∷ entries) out =
      let path = dir ++ normal name ∷ [] in
      chunkstore.Error.◌>>=◌
        (if F.is_dir path s then inside path out else ok (keep_key path prefix out))
        (λ out'. collect_entries inside s dir prefix entries out')

  -- The recursion goes on fuel, for the depth of the tree.
  unfoldable pub collect_keys : ℕ → F.State → FilePath → Text → List Text → Result (List Text)
  unfolding collect_entries
  collect_keys zero s dir prefix out = hang
  collect_keys (suc fuel) s dir prefix out =
      let inside = λ (path : FilePath) (found : List Text). collect_keys fuel s path prefix found in
      if not (F.is_dir dir s)
      then ok out
      else chunkstore.Error.◌>>=◌ (map_err (F.read_dir dir s) io_error)
          (λ entries. collect_entries inside s dir prefix entries out)

  unfoldable pub list_keys : Text → Exec Files (Option (List Text))
  unfolding collect_keys
  list_keys prefix s = (
    chunkstore.Error.◌>>=◌ (collect_keys (suc F.max_depth) s.files root prefix [])
        (λ keys. ok (some keys)),
    s,
  )

  abbrev pub fs_backend : ChunkBackend
  fs_backend = record {
    State = Files;
    get = get;
    put = put;
    exists = exists;
    delete = delete;
    list_keys = list_keys;
  }

  -- The loop of `chunk_blob_count`.
  unfoldable pub count_blobs : F.State → List (Text ⊎ Text) → ℕ → Result ℕ
  count_blobs s [] count = ok count
  count_blobs s (inl e ∷ entries) count = err (io_error e)
  count_blobs s (inr name ∷ entries) count =
      chunkstore.Error.◌>>=◌ (map_err (F.entry_is_file (root ++ normal name ∷ []) s) io_error)
        (λ plain.
          count_blobs s entries (if plain && is_chunk_digest name then add count 1 else count))

  unfoldable pub chunk_blob_count : Exec Files ℕ
  unfolding count_blobs
  chunk_blob_count s = (
    chunkstore.Error.◌>>=◌ (map_err (F.read_dir root s.files) io_error)
        (λ entries. count_blobs s.files entries 0),
    s,
  )

  unfoldable pub chunk_exists : Text → Exec Files Bool
  chunk_exists digest = do
    path ← lift (key_to_path root digest)
    (λ s. (ok (F.is_file path s.files), s))

-- `FsBackend::new`
unfoldable pub new : (F : FileSystem) → FilePath → Exec (Disk F.State) FilePath
new F root = do change F root (F.create_dir_all root); pure root
