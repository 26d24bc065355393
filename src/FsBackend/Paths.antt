-- ===== src/FsBackend/Paths.antt =====
-- What `FsBackend::key_to_path` of core/src/store/fs_backend.rs accepts, and where it leads.
use chunkstore.Base.{
  ℕ, ◌≡◌, ◌≢◌, ◌∙◌, sym, refl, ap, true, false, ◌==◌, List, [], ◌∷◌, ◌++◌, is_empty, arith, map,
  Bool-cases, inl, inr, length, all,
}
use chunkstore.Base.Text.{Text, codes, text_eq, is_ascii_hexdigit}
use chunkstore.Error.{Result, ok, err, hang}
use chunkstore.Persistence.Keys.{IsDigest}
use chunkstore.FsBackend.Key.{
  Component, root_dir, cur_dir, parent_dir, normal, split, component, inner, front, components,
  without_dots, join, component_eq, path_starts_with, has_backslash, check, key_to_path,
}

pub component_eq_refl : (c : Component) → component_eq c c ≡ true
component_eq_refl root_dir = refl
component_eq_refl cur_dir = refl
component_eq_refl parent_dir = refl
component_eq_refl (normal a) = ground arith

path_starts_with-append : (root cs : List Component) → path_starts_with (root ++ cs) root ≡ true
path_starts_with-append [] cs = refl
path_starts_with-append (r ∷ root) cs =
    rw (component_eq_refl r, path_starts_with-append root cs) refl

-- Components that the loop lets pass are names, once the dots are gone.
checked_names :
    (key : Text) (cs : List Component)
    → check key cs ≡ ok tt
    → (names : List Text) × (without_dots cs ≡ map normal names)
checked_names key [] h = ([], refl)
checked_names key (normal piece ∷ cs) h =
    let (names, e) = checked_names key cs h in (piece ∷ names, rw e refl)
checked_names key (cur_dir ∷ cs) h = checked_names key cs h
checked_names key (root_dir ∷ cs) h = cc
checked_names key (parent_dir ∷ cs) h = cc

joined :
    (key : Text) (root cs : List Component)
    → check key cs ≡ ok tt
    → join root cs ≡ root ++ without_dots cs
joined key root [] h = refl
joined key root (normal piece ∷ cs) h = refl
joined key root (cur_dir ∷ cs) h = refl
joined key root (root_dir ∷ cs) h = cc
joined key root (parent_dir ∷ cs) h = cc

-- A key that is accepted leads to a path below the root: the root, then names only.
pub key_to_path_inside :
    (root path : List Component) (key : Text)
    → key_to_path root key ≡ ok path
    → (names : List Text) × (path ≡ root ++ map normal names)
unfolding key_to_path
key_to_path_inside root path key h = from (check key (components key)) refl
  where
    from :
        (r : Result (Unit {0}))
        → check key (components key) ≡ r
        → (names : List Text) × (path ≡ root ++ map normal names)
    from (ok u) e =
        let (names, n) = checked_names key (components key) e in
        let j = joined key root (components key) e in
        let below : path_starts_with (join root (components key)) root ≡ true =
          rw j (path_starts_with-append root (without_dots (components key))) in
        let same : join root (components key) ≡ path = ground (arith, e, below) in
        (names, sym same ∙ j ∙ rw n refl)
    from (err x) e = absurd (ground (arith, e))
    from hang e = absurd (ground (arith, e))

-- Doubling a slash behind the first character leads to the same place.
same_inner :
    (a b : Text)
    → ((split (a ++ 47 ∷ 47 ∷ b)).0 ≡ (split (a ++ 47 ∷ b)).0)
      × (inner (split (a ++ 47 ∷ 47 ∷ b)).1 ≡ inner (split (a ++ 47 ∷ b)).1)
unfolding component
same_inner [] b = (ground arith, ground arith)
same_inner (c ∷ a) b = ground (arith, same_inner a b)

pub components-double_slash :
    (c : ℕ) (a b : Text) → components (c ∷ (a ++ 47 ∷ 47 ∷ b)) ≡ components (c ∷ (a ++ 47 ∷ b))
unfolding components
components-double_slash c a b = ground (arith, same_inner a b)

has_backslash-double_slash :
    (a b : Text) → has_backslash (a ++ 47 ∷ 47 ∷ b) ≡ has_backslash (a ++ 47 ∷ b)
has_backslash-double_slash [] b = ground arith
has_backslash-double_slash (c ∷ a) b = ground (arith, has_backslash-double_slash a b)

-- Whether the components pass does not depend on the key, which only the message names.
check-other_key :
    (key other : Text) (cs : List Component) → check key cs ≡ ok tt → check other cs ≡ ok tt
check-other_key key other [] h = refl
check-other_key key other (normal piece ∷ cs) h = check-other_key key other cs h
check-other_key key other (cur_dir ∷ cs) h = check-other_key key other cs h
check-other_key key other (root_dir ∷ cs) h = cc
check-other_key key other (parent_dir ∷ cs) h = cc

-- Two keys lead to one path if a slash of the one, not its first character, is doubled in the other:
-- where the second key is accepted, so is the first.
pub key_to_path-double_slash :
    (root path : List Component) (c : ℕ) (a b : Text)
    → key_to_path root (c ∷ (a ++ 47 ∷ 47 ∷ b)) ≡ ok path
    → key_to_path root (c ∷ (a ++ 47 ∷ b)) ≡ ok path
unfolding key_to_path
key_to_path-double_slash root path c a b h = from (check long (components long)) refl
  where
    long : Text
    long = c ∷ (a ++ 47 ∷ 47 ∷ b)

    short : Text
    short = c ∷ (a ++ 47 ∷ b)

    from :
        (r : Result (Unit {0}))
        → check long (components long) ≡ r
        → key_to_path root short ≡ ok path
    from (ok u) e =
        let passes = check-other_key long short (components long) e in
        let same = components-double_slash c a b in
        ground (arith, e, passes, same, has_backslash-double_slash a b)
    from (err x) e = absurd (ground (arith, e))
    from hang e = absurd (ground (arith, e))

-- No hexadecimal digit is a slash, a backslash or a dot.
not_special : (is_ascii_hexdigit 47 ≡ false) × (is_ascii_hexdigit 92 ≡ false)
unfolding is_ascii_hexdigit
not_special = (refl, refl)

split_hex : (d : Text) → all is_ascii_hexdigit d ≡ true → split d ≡ (d, [])
split_hex [] h = refl
split_hex (c ∷ d) h =
    let rest = split_hex d (ground arith) in
    let no_slash : (c == 47) ≡ false = ground (arith, not_special) in rw (rest, no_slash) refl

has_backslash-hex : (d : Text) → all is_ascii_hexdigit d ≡ true → has_backslash d ≡ false
has_backslash-hex [] h = refl
has_backslash-hex (c ∷ d) h = ground (arith, not_special, has_backslash-hex d)

text_eq_lengths : (d t : Text) → length d ≢ length t → text_eq d t ≡ false
text_eq_lengths d t ne = elim (Bool-cases (text_eq d t)) [
  | inl same ↦ let e : d ≡ t = ground arith in absurd (ne (ap length e))
  | inr differ ↦ differ
]

components-IsDigest : (d : Text) → IsDigest d → components d ≡ normal d ∷ []
unfolding components front component codes
components-IsDigest [] h = absurd (omega (arith, h.0))
components-IsDigest (c ∷ d) h =
    let dot : text_eq (c ∷ d) (46 ∷ []) ≡ false =
      text_eq_lengths (c ∷ d) (46 ∷ []) (λ e. omega (arith, h.0, e)) in
    let dots : text_eq (c ∷ d) (46 ∷ 46 ∷ []) ≡ false =
      text_eq_lengths (c ∷ d) (46 ∷ 46 ∷ []) (λ e. omega (arith, h.0, e)) in
    let no_slash : (c == 47) ≡ false = ground (arith, h.1, not_special) in
    let whole : split d ≡ (d, []) = split_hex d (ground (arith, h.1)) in
    rw (whole, no_slash, dot, dots) refl

-- A digest is accepted, and its blob lies right below the root under the digest's own name.
pub key_to_path-IsDigest :
    (root : List Component) (d : Text)
    → IsDigest d
    → key_to_path root d ≡ ok (root ++ normal d ∷ [])
unfolding key_to_path
key_to_path-IsDigest root d h =
    let filled : is_empty d ≡ false = filled_of d h.0 in
    rw
      (
        filled,
        has_backslash-hex d h.1,
        components-IsDigest d h,
        path_starts_with-append root (normal d ∷ []),
      )
      refl
  where
    filled_of : (d : Text) → length d ≡ 64 → is_empty d ≡ false
    filled_of [] e = absurd (omega (arith, e))
    filled_of (c ∷ d) e = refl
