-- ===== src/Example/DiskTests.antt =====
-- The theorems about the backend on files, applied on one disk.
use chunkstore.Base.{◌≡◌, ◌≢◌, refl, ap, true, false, none, some, ◌⊎◌, [], ◌∷◌, ◌++◌}
use chunkstore.Base.Text.{Bytes, codes, Text-discrete, decimal}
use chunkstore.Error.{ok}
use chunkstore.Exec.Inversion.{IsFailure}
use chunkstore.FsBackend.Key.{normal, key_to_path, components, component, front}
use chunkstore.FsBackend.System.{FilePath}
use chunkstore.FsBackend.Files.{
  Disk, tmp_path, write_tmp, write_atomic, put, get, delete, list_keys, collect_keys,
  collect_entries, key_of,
}
use chunkstore.FsBackend.Puts.{put_replaces, get-put}
use chunkstore.FsBackend.Deletes.{delete_removes}
use chunkstore.FsBackend.Listing.{IsListing, list_keys-IsListing}
use chunkstore.Example.Disk.{Nodes, set, path_eq, store_dir, disk, disk_law}

abbrev a_path : FilePath
a_path = store_dir ++ normal (codes "a") ∷ []

abbrev b_path : FilePath
b_path = store_dir ++ normal (codes "b") ∷ []

abbrev content : Bytes
content = 7 ∷ 8 ∷ []

-- Two files.
abbrev two_files : Disk Nodes
two_files = record {
  counter = 0;
  files = set a_path (some (1 ∷ [])) (set b_path (some (2 ∷ [])) (λ _. none));
}

abbrev written : Disk Nodes
written = (put disk store_dir (codes "a") content two_files).1

a_accepted : key_to_path store_dir (codes "a") ≡ ok a_path
unfolding key_to_path components component front codes Text-discrete
a_accepted = refl

written_lem : put disk store_dir (codes "a") content two_files ≡ (ok tt, written)
unfolding put write_atomic write_tmp tmp_path key_to_path components component front codes decimal
    Text-discrete
written_lem = refl

listed : (list_keys disk store_dir (codes "a") two_files).0 ≡ ok (some (codes "a" ∷ []))
unfolding list_keys collect_keys collect_entries key_of codes Text-discrete
listed = refl

b_apart : b_path ≢ a_path
unfolding codes Text-discrete
b_apart e = let h : true ≡ false = ap (λ p. path_eq p b_path) e in absurd (cc)

b_tmp : b_path ≢ tmp_path store_dir (codes "a") 0
unfolding codes tmp_path decimal Text-discrete
b_tmp e = let h : true ≡ false = ap (λ p. path_eq p b_path) e in absurd (cc)

put_replaces_example :
    (written.files b_path ≡ some (2 ∷ []))
    × (((put disk store_dir (codes "a") content two_files).0 ≡ ok tt)
          × (written.files a_path ≡ some content)
          × (written.files (tmp_path store_dir (codes "a") 0) ≡ none)
        ⊎ IsFailure (put disk store_dir (codes "a") content two_files).0
          × (written.files a_path ≡ some (1 ∷ [])))
unfolding codes Text-discrete
put_replaces_example =
    put_replaces disk disk_law store_dir a_path store_dir b_path (codes "a") (codes "a") content
      two_files a_accepted refl b_apart b_tmp

get-put_example :
    ((get disk store_dir (codes "a") written).0 ≡ ok (some content))
    ⊎ IsFailure (get disk store_dir (codes "a") written).0
get-put_example =
    get-put disk disk_law store_dir a_path (codes "a") content two_files written a_accepted
      written_lem

delete_removes_example :
    let (r, t) = delete disk store_dir (codes "a") two_files in
    (t.files b_path ≡ two_files.files b_path)
    × (((r ≡ ok tt) × (get disk store_dir (codes "a") t ≡ (ok none, t)))
        ⊎ (IsFailure r × (t.files a_path ≡ two_files.files a_path)))
delete_removes_example =
    delete_removes disk disk_law store_dir a_path b_path (codes "a") two_files a_accepted b_apart

list_keys-IsListing_example :
    IsListing (codes "a") (list_keys disk store_dir (codes "a") two_files).0
    × ((list_keys disk store_dir (codes "a") two_files).1 ≡ two_files)
list_keys-IsListing_example = list_keys-IsListing disk disk_law store_dir (codes "a") two_files
