-- ===== src/FsBackend/Replacing.antt =====
-- `put` of core/src/store/fs_backend.rs, and `get` after it.
use chunkstore.Base.{
  ℕ, ◌≡◌, ◌≢◌, ◌∙◌, refl, ap, Option, none, some, ◌⊎◌, inl, inr, [], ◌∷◌, ◌++◌, length,
  length-append, arith,
}
use chunkstore.Base.Text.{Text, Bytes, codes, decimal}
use chunkstore.Base.Word.{add}
use chunkstore.Error.{Result, io_error, map_err}
use chunkstore.Exec.{Exec, continue, ◌>>◌}
use chunkstore.FsBackend.Key.{normal}
use chunkstore.FsBackend.System.{FilePath, FileSystem}
use chunkstore.FsBackend.Files.{
  Files, file_name, parent, tmp_path, make_parent, write_tmp, write_atomic,
}
use chunkstore.FsBackend.Laws.{IsFileSystem}
use chunkstore.FsBackend.Atomic.{file_name_lem, Done, write_tmp-Done}

append_cancel : (front xs ys : FilePath) → front ++ xs ≡ front ++ ys → xs ≡ ys
append_cancel [] xs ys e = e
append_cancel (c ∷ front) xs ys e = append_cancel front xs ys cc

normal_inj : (a b : Text) (xs ys : FilePath) → normal a ∷ xs ≡ normal b ∷ ys → a ≡ b
normal_inj a b xs ys e = cc

-- The temporary file is another one.
pub tmp_path-apart :
    (path front : FilePath) (name : Text) (unique : ℕ)
    → file_name path ≡ some (front, name)
    → tmp_path front name unique ≢ path
unfolding tmp_path codes
tmp_path-apart path front name unique h e =
    let same = append_cancel front _ _ (e ∙ file_name_lem path front name h) in
    let longer = ap length (normal_inj _ name _ _ same) in
    omega (arith, longer, length-append name (46 ∷ (decimal unique ++ codes ".tmp")))

module _ (F : FileSystem) (law : IsFileSystem F) (root : FilePath) where
  module _ (path front q : FilePath) (name : Text) (content : Bytes) (s : Files F root)
      (named : file_name path ≡ some (front, name)) (q_path : q ≢ path)
      (q_tmp : q ≢ tmp_path front name s.counter) where
    abbrev pub Answer : Result (Unit {0}) × Files F root → Type 0
    Answer =
        Done F law root path (tmp_path front name s.counter) q content
          (tmp_path-apart path front name s.counter named) q_path q_tmp (law.node s.files path)
          (law.node s.files q)

    -- The rest of `write_atomic`, where its guard on the file's name passes.
    abbrev rest : Exec (Files F root) (Unit {0})
    rest t =
        write_tmp F root (tmp_path front name t.counter) path content
          (record t { counter = add t.counter 1 })

    rest_Done :
        (x : F.State)
        → (law.node x path ≡ law.node s.files path) × (law.node x q ≡ law.node s.files q)
        → Answer (rest (record s { files = x }))
    rest_Done x h =
        write_tmp-Done F law root path (tmp_path front name s.counter) q content
          (tmp_path-apart path front name s.counter named) q_path q_tmp _ _
          (record { counter = add s.counter 1; files = x }) h

    parent_Done : (d : Option FilePath) → Answer ((make_parent F root d >> rest) s)
    parent_Done none = rest_Done s.files (refl, refl)
    parent_Done (some dir) = at (F.create_dir_all dir s.files).0
      where
        x : F.State
        x = (F.create_dir_all dir s.files).1

        kept : (p : FilePath) → law.node x p ≡ law.node s.files p
        kept p = law.create_dir_all_keeps dir p s.files

        at :
            (r : Text ⊎ Unit {0})
            → Answer (continue (map_err r io_error) (λ _. rest) (record s { files = x }))
        at (inl e) = (kept q, inr (tt, kept path))
        at (inr _) = rest_Done x (kept path, kept q)

    pub write_atomic-Done : Answer (write_atomic F root path content s)
    unfolding write_atomic
    write_atomic-Done = rw named (parent_Done (parent path))
