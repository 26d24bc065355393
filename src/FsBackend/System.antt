-- ===== src/FsBackend/System.antt =====
-- What core/src/store/fs_backend.rs calls of `std::fs`: the operating system. `inl` carries the message
-- of an `io::Error`.
use chunkstore.Base.{ℕ, Bool, ◌⊎◌, List}
use chunkstore.Base.Text.{Text, Bytes}
use chunkstore.FsBackend.Key.{Component}

abbrev pub FilePath : Type 0
FilePath = List Component

-- A call that changes the file system, also where it fails.
abbrev pub Change : Type 0 → Type 0
Change S = S → (Text ⊎ Unit {0}) × S

pub record FileSystem : Type 1 where
  pub State : Type 0
  pub is_file : FilePath → State → Bool
  pub is_dir : FilePath → State → Bool
  pub exists : FilePath → State → Bool
  -- `fs::read`
  pub read : FilePath → State → Text ⊎ Bytes
  -- `fs::read_dir`: the names of the entries, each of which may be an error.
  pub read_dir : FilePath → State → Text ⊎ List (Text ⊎ Text)
  -- `entry.file_type()?.is_file()`
  pub entry_is_file : FilePath → State → Text ⊎ Bool
  pub create_dir_all : FilePath → Change State
  -- `File::create`, then `write_all` and `sync_all` on the open file.
  pub create : FilePath → Change State
  pub write_all : FilePath → Bytes → Change State
  pub sync_all : FilePath → Change State
  pub rename : FilePath → FilePath → Change State
  pub remove_file : FilePath → Change State
  -- A bound on the length of a path to a directory.
  pub max_depth : ℕ
