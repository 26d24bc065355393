-- ===== src/Example/Disk.antt =====
-- A disk with one directory, on which every call that finds its file succeeds.
use chunkstore.Base.{
  ◌≡◌, ◌≢◌, ◌≤◌, ◌∙◌, refl, sym, ap, Bool, true, false, Bool-cases, ◌&&◌, ◌||◌, if◌then◌else◌,
  Option, none, some, is_some, ◌⊎◌, inl, inr, List, [], ◌∷◌, ◌++◌, length, arith,
}
use chunkstore.Base.Text.{Text, Bytes, codes}
use chunkstore.FsBackend.Key.{Component, root_dir, cur_dir, parent_dir, normal, component_eq}
use chunkstore.FsBackend.Paths.{component_eq_refl}
use chunkstore.FsBackend.System.{FilePath, FileSystem}
use chunkstore.FsBackend.Laws.{IsFileSystem}

abbrev pub path_eq : FilePath → FilePath → Bool
path_eq [] [] = true
path_eq [] (d ∷ q) = false
path_eq (c ∷ p) [] = false
path_eq (c ∷ p) (d ∷ q) = component_eq c d && path_eq p q

component_eq-eq : (c d : Component) → component_eq c d ≡ true → c ≡ d
component_eq-eq root_dir root_dir h = refl
component_eq-eq root_dir cur_dir h = absurd (cc)
component_eq-eq root_dir parent_dir h = absurd (cc)
component_eq-eq root_dir (normal b) h = absurd (cc)
component_eq-eq cur_dir root_dir h = absurd (cc)
component_eq-eq cur_dir cur_dir h = refl
component_eq-eq cur_dir parent_dir h = absurd (cc)
component_eq-eq cur_dir (normal b) h = absurd (cc)
component_eq-eq parent_dir root_dir h = absurd (cc)
component_eq-eq parent_dir cur_dir h = absurd (cc)
component_eq-eq parent_dir parent_dir h = refl
component_eq-eq parent_dir (normal b) h = absurd (cc)
component_eq-eq (normal a) root_dir h = absurd (cc)
component_eq-eq (normal a) cur_dir h = absurd (cc)
component_eq-eq (normal a) parent_dir h = absurd (cc)
component_eq-eq (normal a) (normal b) h = ap normal (ground arith)

path_eq-same : (p : FilePath) → path_eq p p ≡ true
path_eq-same [] = refl
path_eq-same (c ∷ p) = rw (component_eq_refl c, path_eq-same p) refl

path_eq-eq : (p q : FilePath) → path_eq p q ≡ true → p ≡ q
path_eq-eq [] [] h = refl
path_eq-eq [] (d ∷ q) h = absurd (cc)
path_eq-eq (c ∷ p) [] h = absurd (cc)
path_eq-eq (c ∷ p) (d ∷ q) h =
    let first : c ≡ d = component_eq-eq c d (ground arith) in
    let rest : p ≡ q = path_eq-eq p q (ground arith) in
    ap (λ x. x ∷ p) first ∙ ap (λ xs. d ∷ xs) rest

path_eq-apart : (p q : FilePath) → p ≢ q → path_eq p q ≡ false
path_eq-apart p q apart = elim (Bool-cases (path_eq p q)) [
  | inl same ↦ absurd (apart (path_eq-eq p q same))
  | inr differ ↦ differ
]

abbrev pub Nodes : Type 0
Nodes = FilePath → Option Bytes

abbrev pub set : FilePath → Option Bytes → Nodes → Nodes
set p v s q = if path_eq q p then v else s q

pub set_here : (p : FilePath) (v : Option Bytes) (s : Nodes) → set p v s p ≡ v
set_here p v s = rw (path_eq-same p) refl

pub set_apart : (p q : FilePath) (v : Option Bytes) (s : Nodes) → q ≢ p → set p v s q ≡ s q
set_apart p q v s apart = rw (path_eq-apart q p apart) refl

abbrev pub store_dir : FilePath
store_dir = normal (codes "d") ∷ []

abbrev found : Option Bytes → Text ⊎ Bytes
found none = inl (codes "not found")
found (some c) = inr c

-- A call on a file that must be there.
abbrev on_file : Option Bytes → (Bytes → Nodes) → Nodes → (Text ⊎ Unit {0}) × Nodes
on_file none f s = (inl (codes "not found"), s)
on_file (some c) f s = (inr tt, f c)

abbrev names_in : List Text → FilePath → Nodes → List (Text ⊎ Text)
names_in [] dir s = []
names_in (name ∷ names) dir s =
    let rest = names_in names dir s in
    if is_some (s (dir ++ normal name ∷ [])) then inr name ∷ rest else rest

-- The names that `read_dir` looks for.
abbrev names : List Text
names = codes "a" ∷ codes "b" ∷ codes "a.0.tmp" ∷ []

abbrev pub disk : FileSystem
disk = record {
  State = Nodes;
  is_file = λ p s. is_some (s p);
  is_dir = λ p s. path_eq p store_dir;
  exists = λ p s. is_some (s p) || path_eq p store_dir;
  read = λ p s. found (s p);
  read_dir = λ dir s. inr (names_in names dir s);
  entry_is_file = λ p s. inr (is_some (s p));
  create_dir_all = λ p s. (inr tt, s);
  create = λ p s. (inr tt, set p (some []) s);
  write_all = λ p c s. (inr tt, set p (some c) s);
  sync_all = λ p s. (inr tt, s);
  rename = λ p q s. on_file (s p) (λ c. set q (some c) (set p none s)) s;
  remove_file = λ p s. on_file (s p) (λ _. set p none s) s;
  max_depth = 1;
}

pub is_dir_depth : (p : FilePath) (s : Nodes) → path_eq p store_dir ≡ true → length p ≤ 1
is_dir_depth p s h = omega (arith, ap length (path_eq-eq p store_dir h))

pub found-inr : (o : Option Bytes) (c : Bytes) → found o ≡ inr c → o ≡ some c
found-inr none c h = absurd (cc)
found-inr (some b) c h = cc

pub exists-none : (o : Option Bytes) (b : Bool) → is_some o || b ≡ false → o ≡ none
exists-none none b h = refl
exists-none (some c) b h = absurd (cc)

-- A call on a file that is missing changes nothing, and one that returns has run.
pub on_file-inl :
    (o : Option Bytes) (f : Bytes → Nodes) (s t : Nodes) (m : Text)
    → on_file o f s ≡ (inl m, t)
    → t ≡ s
on_file-inl none f s t m h = sym (ap (λ z. z.1) h)
on_file-inl (some c) f s t m h = absurd (cc)

on_file-inr :
    (o : Option Bytes) (f : Bytes → Nodes) (s t : Nodes)
    → on_file o f s ≡ (inr tt, t)
    → (c : Bytes) × (o ≡ some c) × (t ≡ f c)
on_file-inr none f s t h = absurd (cc)
on_file-inr (some c) f s t h = (c, refl, sym (ap (λ z. z.1) h))

pub on_file-keeps :
    (o : Option Bytes) (f : Bytes → Nodes) (s : Nodes) (q : FilePath)
    → ((c : Bytes) → f c q ≡ s q)
    → (on_file o f s).1 q ≡ s q
on_file-keeps none f s q h = refl
on_file-keeps (some c) f s q h = h c

pub renamed :
    (p q : FilePath) (s t : Nodes) (c : Bytes)
    → s p ≡ some c
    → p ≢ q
    → disk.rename p q s ≡ (inr tt, t)
    → (t q ≡ some c) × (t p ≡ none)
renamed p q s t c there apart run =
    let (b, is, now) = on_file-inr (s p) (λ c. set q (some c) (set p none s)) s t run in
    (
      ap (λ z. z q) now ∙ set_here q (some b) (set p none s) ∙ sym is ∙ there,
      ap (λ z. z p) now ∙ set_apart q p (some b) (set p none s) apart ∙ set_here p none s,
    )

pub removed : (p : FilePath) (s t : Nodes) → disk.remove_file p s ≡ (inr tt, t) → t p ≡ none
removed p s t run =
    let (b, is, now) = on_file-inr (s p) (λ _. set p none s) s t run in
    ap (λ z. z p) now ∙ set_here p none s

abbrev pub disk_law : IsFileSystem disk
disk_law = record {
  node = λ s p. s p;
  is_file_lem = λ p s. refl;
  read_lem = λ p s c h. found-inr (s p) c h;
  create_dir_all_keeps = λ p q s. refl;
  create_lem = λ p s t run. ap (λ z. z.1 p) (sym run) ∙ set_here p (some []) s;
  create_keeps = λ p q s apart. set_apart p q (some []) s apart;
  write_all_lem = λ p c s t _ run. ap (λ z. z.1 p) (sym run) ∙ set_here p (some c) s;
  write_all_keeps = λ p q c s apart. set_apart p q (some c) s apart;
  sync_all_keeps = λ p q s. refl;
  rename_failed = λ p q r s t m run. ap (λ z. z r) (on_file-inl (s p) _ s t m run);
  rename_done = renamed;
  rename_keeps = λ p q r s r_p r_q.
      on_file-keeps (s p) _ s r
        (λ c. set_apart q r (some c) (set p none s) r_q ∙ set_apart p r none s r_p);
  is_dir_depth = is_dir_depth;
  exists_lem = λ p s h. exists-none (s p) (path_eq p store_dir) h;
  remove_file_lem = removed;
  remove_file_failed = λ p s t m run. ap (λ z. z p) (on_file-inl (s p) _ s t m run);
  remove_file_keeps = λ p q s apart. on_file-keeps (s p) _ s q (λ _. set_apart p q none s apart);
}
