-- ===== src/FsBackend/Atomic.antt =====
-- `write_atomic` of core/src/store/fs_backend.rs behind its temporary file's name.
use chunkstore.Base.{◌≡◌, ◌≢◌, ◌∙◌, refl, sym, ap, Option, none, some, ◌⊎◌, inl, inr, [], ◌∷◌, ◌++◌}
use chunkstore.Base.Text.{Text, Bytes}
use chunkstore.Error.{Result, ok, io_error, map_err}
use chunkstore.Exec.{Exec, continue, ◌>>◌}
use chunkstore.Exec.Inversion.{IsFailure}
use chunkstore.FsBackend.Key.{Component, root_dir, cur_dir, parent_dir, normal}
use chunkstore.FsBackend.System.{FilePath, Change, FileSystem}
use chunkstore.FsBackend.Files.{Files, change, last_of, name_of, file_name, write_tmp}
use chunkstore.FsBackend.Laws.{IsFileSystem}

last_of_lem :
    (c : Component) (path : FilePath) → c ∷ path ≡ (last_of c path).0 ++ (last_of c path).1 ∷ []
last_of_lem c [] = refl
last_of_lem c (d ∷ path) = ap (λ p. c ∷ p) (last_of_lem d path)

named_lem :
    (z : FilePath × Component) (front : FilePath) (name : Text)
    → name_of z ≡ some (front, name)
    → z.0 ++ z.1 ∷ [] ≡ front ++ normal name ∷ []
named_lem (g, root_dir) front name e = absurd (cc)
named_lem (g, cur_dir) front name e = absurd (cc)
named_lem (g, parent_dir) front name e = absurd (cc)
named_lem (g, normal n) front name e = cc

pub file_name_lem :
    (path front : FilePath) (name : Text)
    → file_name path ≡ some (front, name)
    → path ≡ front ++ normal name ∷ []
file_name_lem [] front name e = absurd (cc)
file_name_lem (c ∷ path) front name e = last_of_lem c path ∙ named_lem (last_of c path) front name e

module _ (F : FileSystem) (law : IsFileSystem F) (root : FilePath) where
  module _ (path tmp q : FilePath) (content : Bytes) (apart : tmp ≢ path) (q_path : q ≢ path)
      (q_tmp : q ≢ tmp) (before other : Option Bytes) where
    -- Nothing has happened to the file and to any other but the temporary one.
    abbrev pub Kept : F.State → Type 0
    Kept x = (law.node x path ≡ before) × (law.node x q ≡ other)

    abbrev pub Done : Result (Unit {0}) × Files F root → Type 0
    Done (r, s) =
        (law.node s.files q ≡ other)
        × (((r ≡ ok tt) × (law.node s.files path ≡ some content) × (law.node s.files tmp ≡ none))
            ⊎ (IsFailure r × (law.node s.files path ≡ before)))

    -- One call that touches neither file, and what follows it.
    then_Done :
        (m : Change F.State) (k : Exec (Files F root) (Unit {0})) (s : Files F root)
        → Kept s.files
        → (law.node (m s.files).1 path ≡ law.node s.files path)
          × (law.node (m s.files).1 q ≡ law.node s.files q)
        → ((x : F.State) → m s.files ≡ (inr tt, x) → Kept x → Done (k (record s { files = x })))
        → Done ((change F root m >> k) s)
    then_Done m k s h same goes = at (m s.files).0 (m s.files).1 refl
      where
        kept : (r : Text ⊎ Unit {0}) (x : F.State) → m s.files ≡ (r, x) → Kept x
        kept r x run = (
          ap (λ z. law.node z.1 path) (sym run) ∙ same.0 ∙ h.0,
          ap (λ z. law.node z.1 q) (sym run) ∙ same.1 ∙ h.1,
        )

        at :
            (r : Text ⊎ Unit {0}) (x : F.State)
            → m s.files ≡ (r, x)
            → Done (continue (map_err r io_error) (λ _. k) (record s { files = x }))
        at (inl e) x run = let now = kept (inl e) x run in (now.1, inr (tt, now.0))
        at (inr _) x run = goes x run (kept (inr tt) x run)

    rename_Done :
        (s : Files F root)
        → Kept s.files
        → law.node s.files tmp ≡ some content
        → Done (change F root (F.rename tmp path) s)
    rename_Done s h there = at (F.rename tmp path s.files).0 (F.rename tmp path s.files).1 refl
      where
        at :
            (r : Text ⊎ Unit {0}) (x : F.State)
            → F.rename tmp path s.files ≡ (r, x)
            → Done (map_err r io_error, record s { files = x })
        at (inl e) x run = (
          law.rename_failed tmp path q s.files x e run ∙ h.1,
          inr (tt, law.rename_failed tmp path path s.files x e run ∙ h.0),
        )
        at (inr _) x run =
            let kept = law.rename_keeps tmp path q s.files q_tmp q_path in
            let (now, gone) = law.rename_done tmp path s.files x content there apart run in
            (ap (λ z. law.node z.1 q) (sym run) ∙ kept ∙ h.1, inl (refl, now, gone))

    path_tmp : path ≢ tmp
    path_tmp e = apart (sym e)

    pub write_tmp-Done :
        (s : Files F root) → Kept s.files → Done (write_tmp F root tmp path content s)
    unfolding write_tmp
    write_tmp-Done s h =
        then_Done (F.create tmp) _ s h
          (law.create_keeps tmp path s.files path_tmp, law.create_keeps tmp q s.files q_tmp)
          (λ x created now.
            then_Done (F.write_all tmp content) _ (record s { files = x }) now
              (
                law.write_all_keeps tmp path content x path_tmp,
                law.write_all_keeps tmp q content x q_tmp,
              )
              (λ y written now.
                let filled =
                  law.write_all_lem tmp content x y (law.create_lem tmp s.files x created)
                    written in
                then_Done (F.sync_all tmp) _ (record s { files = y }) now
                  (law.sync_all_keeps tmp path y, law.sync_all_keeps tmp q y)
                  (λ z synced now.
                    let there =
                      ap (λ w. law.node w.1 tmp) (sym synced)
                      ∙ law.sync_all_keeps tmp tmp y
                      ∙ filled in
                    rename_Done (record s { files = z }) now there)))
