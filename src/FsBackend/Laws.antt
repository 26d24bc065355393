-- ===== src/FsBackend/Laws.antt =====
-- What the theorems about core/src/store/fs_backend.rs assume of the file system. Calls may fail.
use chunkstore.Base.{◌≡◌, ◌≢◌, ◌≤◌, true, false, Option, none, some, is_some, inl, inr, [], length}
use chunkstore.Base.Text.{Text, Bytes}
use chunkstore.FsBackend.System.{FilePath, FileSystem}

pub record IsFileSystem (F : FileSystem) : Type 0 where
  -- The bytes of the regular file at a path.
  pub node : F.State → FilePath → Option Bytes
  pub is_file_lem : (p : FilePath) (s : F.State) → F.is_file p s ≡ is_some (node s p)
  pub read_lem : (p : FilePath) (s : F.State) (c : Bytes) → F.read p s ≡ inr c → node s p ≡ some c
  -- Directories are no regular files.
  pub create_dir_all_keeps :
      (p q : FilePath) (s : F.State) → node (F.create_dir_all p s).1 q ≡ node s q
  -- A file is created empty, or emptied.
  pub create_lem : (p : FilePath) (s t : F.State) → F.create p s ≡ (inr tt, t) → node t p ≡ some []
  pub create_keeps : (p q : FilePath) (s : F.State) → q ≢ p → node (F.create p s).1 q ≡ node s q
  pub write_all_lem :
      (p : FilePath) (c : Bytes) (s t : F.State)
      → node s p ≡ some []
      → F.write_all p c s ≡ (inr tt, t)
      → node t p ≡ some c
  pub write_all_keeps :
      (p q : FilePath) (c : Bytes) (s : F.State) → q ≢ p → node (F.write_all p c s).1 q ≡ node s q
  pub sync_all_keeps : (p q : FilePath) (s : F.State) → node (F.sync_all p s).1 q ≡ node s q
  -- A rename is done at once, or not at all.
  pub rename_failed :
      (p q r : FilePath) (s t : F.State) (m : Text)
      → F.rename p q s ≡ (inl m, t)
      → node t r ≡ node s r
  pub rename_done :
      (p q : FilePath) (s t : F.State) (c : Bytes)
      → node s p ≡ some c
      → p ≢ q
      → F.rename p q s ≡ (inr tt, t)
      → (node t q ≡ some c) × (node t p ≡ none)
  pub rename_keeps :
      (p q r : FilePath) (s : F.State) → r ≢ p → r ≢ q → node (F.rename p q s).1 r ≡ node s r
  pub is_dir_depth : (p : FilePath) (s : F.State) → F.is_dir p s ≡ true → length p ≤ F.max_depth
  pub exists_lem : (p : FilePath) (s : F.State) → F.exists p s ≡ false → node s p ≡ none
  pub remove_file_lem :
      (p : FilePath) (s t : F.State) → F.remove_file p s ≡ (inr tt, t) → node t p ≡ none
  pub remove_file_failed :
      (p : FilePath) (s t : F.State) (m : Text)
      → F.remove_file p s ≡ (inl m, t)
      → node t p ≡ node s p
  pub remove_file_keeps :
      (p q : FilePath) (s : F.State) → q ≢ p → node (F.remove_file p s).1 q ≡ node s q
