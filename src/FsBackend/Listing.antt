-- ===== src/FsBackend/Listing.antt =====
-- The recursion of `collect_keys` of core/src/store/fs_backend.rs: it ends, and what it lists.
use chunkstore.Base.{
  ℕ, zero, suc, ◌+◌, ◌<◌, ◌≡◌, refl, if◌then◌else◌, Bool, true, false, Bool-cases, Option, none,
  some, ◌⊎◌, inl, inr, List, [], ◌∷◌, ◌++◌, length, length-append, arith, All, All-append, drop,
}
use chunkstore.Base.Text.{Text}
use chunkstore.Error.{Result, ok, err, hang, io_error, map_err}
use chunkstore.Backend.Lawful.{starts_with}
use chunkstore.FsBackend.Key.{normal}
use chunkstore.FsBackend.System.{FilePath, FileSystem}
use chunkstore.FsBackend.Files.{Disk, collect_entries, collect_keys, list_keys, keep_key, key_of}
use chunkstore.FsBackend.Laws.{IsFileSystem}

abbrev pub AllStart : Text → List Text → Type 0
AllStart prefix keys = All (λ k. starts_with k prefix ≡ true) keys

-- Keys that start so, or an error.
abbrev pub IsListed : Text → Result (List Text) → Type 0
IsListed prefix (ok keys) = AllStart prefix keys
IsListed prefix (err e) = Unit
IsListed prefix hang = ⊥

-- The answer of `list_keys`: keys that start so, or an error.
abbrev pub IsListing : Text → Result (Option (List Text)) → Type 0
IsListing prefix (ok (some keys)) = AllStart prefix keys
IsListing prefix (ok none) = ⊥
IsListing prefix (err e) = Unit
IsListing prefix hang = ⊥

then_IsListed :
    (prefix : Text) (r : Result (List Text)) (f : List Text → Result (List Text))
    → IsListed prefix r
    → ((keys : List Text) → AllStart prefix keys → IsListed prefix (f keys))
    → IsListed prefix (chunkstore.Error.◌>>=◌ r f)
then_IsListed prefix (ok keys) f h rest = rest keys h
then_IsListed prefix (err m) f h rest = tt
then_IsListed prefix hang f h rest = h

read_IsListed :
    {A : Type 0} (prefix : Text) (r : Text ⊎ A) (f : A → Result (List Text))
    → ((a : A) → IsListed prefix (f a))
    → IsListed prefix (chunkstore.Error.◌>>=◌ (map_err r io_error) f)
read_IsListed prefix (inl m) f rest = tt
read_IsListed prefix (inr a) f rest = rest a

answer_IsListing :
    (prefix : Text) (r : Result (List Text))
    → IsListed prefix r
    → IsListing prefix (chunkstore.Error.◌>>=◌ r (λ keys. ok (some keys)))
answer_IsListing prefix (ok keys) h = h
answer_IsListing prefix (err m) h = tt
answer_IsListing prefix hang h = h

module _ (F : FileSystem) (law : IsFileSystem F) (root : FilePath) (s : F.State)
    (prefix : Text) where
  keep_key-AllStart :
      (path : FilePath) (out : List Text)
      → AllStart prefix out
      → AllStart prefix (keep_key F root path prefix out)
  keep_key-AllStart path out h =
      elim (Bool-cases (starts_with (key_of (drop (length root) path)) prefix)) [
        | inl starts ↦
            rw starts (All-append (λ k. starts_with k prefix ≡ true) out _ h (starts, tt))
        | inr other ↦ rw other h
      ]

  entries_IsListed :
      (inside : FilePath → List Text → Result (List Text)) (dir : FilePath)
      → ((name : Text) (out : List Text)
          → F.is_dir (dir ++ normal name ∷ []) s ≡ true
          → AllStart prefix out
          → IsListed prefix (inside (dir ++ normal name ∷ []) out))
      → (entries : List (Text ⊎ Text)) (out : List Text) → AllStart prefix out
      → IsListed prefix (collect_entries F root inside s dir prefix entries out)
  unfolding collect_entries
  entries_IsListed inside dir deeper [] out h = h
  entries_IsListed inside dir deeper (inl m ∷ entries) out h = tt
  entries_IsListed inside dir deeper (inr name ∷ entries) out h =
      then_IsListed prefix _ _ (entry (F.is_dir path s) refl)
        (λ found. entries_IsListed inside dir deeper entries found)
    where
      path : FilePath
      path = dir ++ normal name ∷ []

      entry :
          (b : Bool)
          → F.is_dir path s ≡ b
          → IsListed prefix (if b then inside path out else ok (keep_key F root path prefix out))
      entry true is = deeper name out is h
      entry false _ = keep_key-AllStart path out h

  keys_IsListed :
      (fuel : ℕ) (dir : FilePath) (out : List Text)
      → 0 < fuel
      → F.max_depth < fuel + length dir
      → AllStart prefix out
      → IsListed prefix (collect_keys F root fuel s dir prefix out)
  unfolding collect_keys
  keys_IsListed zero dir out some_fuel enough h = absurd (omega (arith, some_fuel))
  keys_IsListed (suc fuel) dir out some_fuel enough h = elim (Bool-cases (F.is_dir dir s)) [
    | inl is ↦ rw is (
        read_IsListed prefix (F.read_dir dir s) _ (λ entries.
          entries_IsListed (λ path found. collect_keys F root fuel s path prefix found) dir
            (λ name found inside.
              let depth = law.is_dir_depth _ s inside in
              let step = length-append dir (normal name ∷ []) in
              keys_IsListed fuel (dir ++ normal name ∷ []) found
                (omega (arith, enough, depth, step)) (omega (arith, enough, step)))
            entries out h))
    | inr other ↦ rw other h
  ]

-- Listing the keys returns an error, or keys that all start with the prefix: the depth of the
-- recursion stays within the length of the longest path to a directory. It changes nothing.
pub list_keys-IsListing :
    (F : FileSystem) (law : IsFileSystem F) (root : FilePath) (prefix : Text) (s : Disk F.State)
    → IsListing prefix (list_keys F root prefix s).0 × ((list_keys F root prefix s).1 ≡ s)
unfolding list_keys
list_keys-IsListing F law root prefix s = (
  answer_IsListing prefix _ (
      keys_IsListed F law root s.files prefix (suc F.max_depth) root [] (omega arith) (omega arith)
        tt),
  refl,
)
