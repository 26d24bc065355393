-- ===== src/FsBackend/Key.antt =====
-- core/src/store/fs_backend.rs: where a key lies on disk. `std::path` is modelled as it is on Unix; a
-- path is the list of its components.
use chunkstore.Base.{
  Bool, true, false, not, ◌&&◌, ◌||◌, ◌==◌, if◌then◌else◌, List, [], ◌∷◌, ◌++◌, is_empty,
}
use chunkstore.Base.Text.{Text, codes, text_eq}
use chunkstore.Error.{Result, ok, err, invalid_argument, ◌>>=◌}

-- `std::path::Component`
pub data Component : Type 0 where
  root_dir : Component
  cur_dir : Component
  parent_dir : Component
  normal : Text → Component

-- The piece before the first slash, and the pieces behind it.
abbrev pub split : Text → Text × List Text
split [] = ([], [])
split (c ∷ key) =
    let (piece, pieces) = split key in if c == 47 then ([], piece ∷ pieces) else (c ∷ piece, pieces)

-- Behind a slash, empty pieces and dots vanish.
unfoldable pub component : Text → List Component
component piece =
    if is_empty piece || text_eq piece (codes ".")
    then []
    else if text_eq piece (codes "..")
    then parent_dir ∷ []
    else normal piece ∷ []

abbrev pub inner : List Text → List Component
inner [] = []
inner (piece ∷ pieces) = component piece ++ inner pieces

-- A dot in front is a component.
unfoldable pub front : Text → List Component
front piece = if text_eq piece (codes ".") then cur_dir ∷ [] else component piece

abbrev pub starts_slash : Text → Bool
starts_slash [] = false
starts_slash (c ∷ key) = c == 47

-- `Path::components`
unfoldable pub components : Text → List Component
components key =
    let (piece, pieces) = split key in
    if starts_slash key then root_dir ∷ inner pieces else front piece ++ inner pieces

abbrev pub without_dots : List Component → List Component
without_dots [] = []
without_dots (cur_dir ∷ cs) = without_dots cs
without_dots (root_dir ∷ cs) = root_dir ∷ without_dots cs
without_dots (parent_dir ∷ cs) = parent_dir ∷ without_dots cs
without_dots (normal piece ∷ cs) = normal piece ∷ without_dots cs

-- `Path::join`: an absolute path replaces the one before.
abbrev pub join : List Component → List Component → List Component
join root (root_dir ∷ cs) = root_dir ∷ without_dots cs
join root cs = root ++ without_dots cs

abbrev pub component_eq : Component → Component → Bool
component_eq root_dir root_dir = true
component_eq cur_dir cur_dir = true
component_eq parent_dir parent_dir = true
component_eq (normal a) (normal b) = text_eq a b
component_eq _ _ = false

-- `Path::starts_with`
abbrev pub path_starts_with : List Component → List Component → Bool
path_starts_with path [] = true
path_starts_with [] (r ∷ root) = false
path_starts_with (c ∷ path) (r ∷ root) = component_eq c r && path_starts_with path root

-- `key.contains('\\')`
abbrev pub has_backslash : Text → Bool
has_backslash [] = false
has_backslash (c ∷ key) = c == 92 || has_backslash key

-- The loop over the components.
abbrev pub check : Text → List Component → Result (Unit {0})
check key [] = ok tt
check key (normal piece ∷ cs) = check key cs
check key (cur_dir ∷ cs) = check key cs
check key (root_dir ∷ cs) = err (invalid_argument (codes "invalid key path component in " ++ key))
check key (parent_dir ∷ cs) = err (invalid_argument (codes "invalid key path component in " ++ key))

unfoldable pub key_to_path : List Component → Text → Result (List Component)
key_to_path root key =
    if is_empty key
    then err (invalid_argument (codes "key cannot be empty"))
    else if has_backslash key
    then err (invalid_argument (codes "key cannot contain backslashes"))
    else check key (components key) >>= λ _.
        let path = join root (components key) in
        if not (path_starts_with path root)
        then err (invalid_argument (codes "key escapes backend root: " ++ key))
        else ok path
