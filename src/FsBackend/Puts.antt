-- ===== src/FsBackend/Puts.antt =====
-- `put` of core/src/store/fs_backend.rs, and `get` after it.
use chunkstore.Base.{
  ℕ, ◌≡◌, ◌≢◌, ◌∙◌, refl, sym, ap, subst, true, Option, none, some, is_some, ◌⊎◌, inl, inr, [], ◌∷◌,
  ◌++◌, length, length-append, arith,
}
use chunkstore.Base.Text.{Text, Bytes, codes, decimal}
use chunkstore.Error.{
  ChunkStoreError, Result, ok, invalid_argument, ok_or, io_error, map_err, ◌>>=◌,
}
use chunkstore.Exec.{lift, continue}
use chunkstore.Exec.Inversion.{IsFailure, bind-ok}
use chunkstore.FsBackend.Key.{root_dir, normal, key_to_path}
use chunkstore.FsBackend.System.{FilePath, FileSystem}
use chunkstore.FsBackend.Files.{
  Disk, file_name, parent, tmp_path, make_parent, write_atomic, put, get,
}
use chunkstore.FsBackend.Laws.{IsFileSystem}
use chunkstore.FsBackend.Atomic.{file_name_lem}
use chunkstore.FsBackend.Replacing.{write_atomic-Done}

-- A write touches the file of its key and one temporary file beside it, and no other. Either it
-- returns, the file holds the new bytes and the temporary file is gone, or it fails, wherever that
-- happens, and the file is what it was before.
pub put_replaces :
    (F : FileSystem) (law : IsFileSystem F) (root path front q : FilePath) (name key : Text)
    (content : Bytes) (s : Disk F.State)
    → key_to_path root key ≡ ok path
    → file_name path ≡ some (front, name)
    → q ≢ path
    → q ≢ tmp_path front name s.counter
    → let (r, t) = put F root key content s in
      (law.node t.files q ≡ law.node s.files q)
      × (((r ≡ ok tt)
            × (law.node t.files path ≡ some content)
            × (law.node t.files (tmp_path front name s.counter) ≡ none))
          ⊎ (IsFailure r × (law.node t.files path ≡ law.node s.files path)))
unfolding put
put_replaces F law root path front q name key content s accepted named q_path q_tmp =
    rw accepted (write_atomic-Done F law root path front q name content s named q_path q_tmp)

ok_or-ok :
    (o : Option (FilePath × Text)) (e : ChunkStoreError) (a : FilePath × Text)
    → ok_or o e ≡ ok a
    → o ≡ some a
ok_or-ok none e a h = absurd (cc)
ok_or-ok (some b) e a h = cc

-- A write that returned had a file to write to.
write_atomic-named :
    (F : FileSystem) (root path : FilePath) (content : Bytes) (s t : Disk F.State)
    → write_atomic F root path content s ≡ (ok tt, t)
    → (z : FilePath × Text) × (file_name path ≡ some z)
unfolding write_atomic
write_atomic-named F root path content s t h =
    let (_, u, _, rest) = bind-ok (make_parent F root (parent path)) _ s t tt h in
    let (z, v, found, _) =
      bind-ok (lift (ok_or (file_name path) (invalid_argument (codes "path has no file name")))) _ u
        t tt rest in
    (z, ok_or-ok _ _ z (ap (λ w. w.0) found))

longer : (path : FilePath) → path ++ root_dir ∷ [] ≢ path
longer path e = omega (arith, ap length e, length-append path (root_dir ∷ []))

longer_tmp :
    (path front : FilePath) (name : Text) (unique : ℕ)
    → file_name path ≡ some (front, name)
    → path ++ root_dir ∷ [] ≢ tmp_path front name unique
unfolding tmp_path
longer_tmp path front name unique h e = omega (
  arith,
  ap length e,
  length-append path (root_dir ∷ []),
  ap length (file_name_lem path front name h),
  length-append front (normal name ∷ []),
  length-append front (normal (name ++ (codes "." ++ (decimal unique ++ codes ".tmp"))) ∷ []),
)

-- A read of a file that is there.
read_there :
    (F : FileSystem) (law : IsFileSystem F) (root path : FilePath) (key : Text) (content : Bytes)
    (t : Disk F.State)
    → key_to_path root key ≡ ok path
    → law.node t.files path ≡ some content
    → ((get F root key t).0 ≡ ok (some content)) ⊎ IsFailure (get F root key t).0
unfolding get
read_there F law root path key content t accepted there =
    let file : F.is_file path t.files ≡ true = law.is_file_lem path t.files ∙ ap is_some there in
    rw (accepted, file) (at (F.read path t.files) refl)
  where
    answer : Text ⊎ Bytes → Result (Option Bytes)
    answer r = map_err r io_error >>= λ bytes. ok (some bytes)

    at :
        (r : Text ⊎ Bytes)
        → F.read path t.files ≡ r
        → (answer r ≡ ok (some content)) ⊎ IsFailure (answer r)
    at (inl e) run = inr tt
    at (inr c) run = inl (ap ok (sym (law.read_lem path t.files c run) ∙ there))

-- What a write that returned has written is what a read of its key then finds, unless the read
-- fails.
pub get-put :
    (F : FileSystem) (law : IsFileSystem F) (root path : FilePath) (key : Text) (content : Bytes)
    (s t : Disk F.State)
    → key_to_path root key ≡ ok path
    → put F root key content s ≡ (ok tt, t)
    → ((get F root key t).0 ≡ ok (some content)) ⊎ IsFailure (get F root key t).0
unfolding put
get-put F law root path key content s t accepted h =
    let written = ap (λ r. continue r (λ p. write_atomic F root p content) s) (sym accepted) ∙ h in
    let ((front, name), named) = write_atomic-named F root path content s t written in
    let q = path ++ root_dir ∷ [] in
    let (_, answer) =
      put_replaces F law root path front q name key content s accepted named (longer path)
        (longer_tmp path front name s.counter named) in
    elim answer [
      | inl (_, now, _) ↦
          read_there F law root path key content t accepted
            (ap (λ w. law.node w.1.files path) (sym h) ∙ now)
      | inr (failed, _) ↦ absurd (subst (λ w. IsFailure w.0) h failed)
    ]
