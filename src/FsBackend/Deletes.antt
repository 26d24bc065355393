-- ===== src/FsBackend/Deletes.antt =====
-- `delete` of core/src/store/fs_backend.rs, and `get` after it.
use chunkstore.Base.{◌≡◌, ◌≢◌, ◌∙◌, refl, sym, ap, false, Bool-cases, none, is_some, ◌⊎◌, inl, inr}
use chunkstore.Base.Text.{Text}
use chunkstore.Error.{ok, io_error, map_err}
use chunkstore.Exec.Inversion.{IsFailure}
use chunkstore.FsBackend.Key.{key_to_path}
use chunkstore.FsBackend.System.{FilePath, FileSystem}
use chunkstore.FsBackend.Files.{Disk, delete, get}
use chunkstore.FsBackend.Laws.{IsFileSystem}

get_gone :
    (F : FileSystem) (law : IsFileSystem F) (root path : FilePath) (key : Text) (t : Disk F.State)
    → key_to_path root key ≡ ok path
    → law.node t.files path ≡ none
    → get F root key t ≡ (ok none, t)
unfolding get
get_gone F law root path key t accepted gone =
    let file : F.is_file path t.files ≡ false = law.is_file_lem path t.files ∙ ap is_some gone in
    rw (accepted, file) refl

-- A deletion touches the file of its key only. Either it returns, and a read of the key finds
-- nothing, or it fails, and the file is what it was before.
pub delete_removes :
    (F : FileSystem) (law : IsFileSystem F) (root path q : FilePath) (key : Text) (s : Disk F.State)
    → key_to_path root key ≡ ok path
    → q ≢ path
    → let (r, t) = delete F root key s in
      (law.node t.files q ≡ law.node s.files q)
      × (((r ≡ ok tt) × (get F root key t ≡ (ok none, t)))
          ⊎ (IsFailure r × (law.node t.files path ≡ law.node s.files path)))
unfolding delete
delete_removes F law root path q key s accepted q_path =
    rw accepted (elim (Bool-cases (F.exists path s.files)) [
      | inl there ↦ rw there (at (F.remove_file path s.files).0 (F.remove_file path s.files).1 refl)
      | inr gone ↦ rw gone (
        refl,
        inl (refl, get_gone F law root path key s accepted (law.exists_lem path s.files gone)),
      )
    ])
  where
    at :
        (r : Text ⊎ Unit {0}) (x : F.State)
        → F.remove_file path s.files ≡ (r, x)
        → let t = record s { files = x } in
          (law.node x q ≡ law.node s.files q)
          × (((map_err r io_error ≡ ok tt) × (get F root key t ≡ (ok none, t)))
              ⊎ (IsFailure (map_err r io_error) × (law.node x path ≡ law.node s.files path)))
    at (inl m) x run =
        let kept = law.remove_file_keeps path q s.files q_path in
        (
          ap (λ z. law.node z.1 q) (sym run) ∙ kept,
          inr (tt, law.remove_file_failed path s.files x m run),
        )
    at (inr _) x run =
        let kept = law.remove_file_keeps path q s.files q_path in
        let gone = law.remove_file_lem path s.files x run in
        (
          ap (λ z. law.node z.1 q) (sym run) ∙ kept,
          inl (refl, get_gone F law root path key (record s { files = x }) accepted gone),
        )
