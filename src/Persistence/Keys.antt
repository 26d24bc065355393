-- ===== src/Persistence/Keys.antt =====
-- The keys of core/src/store/persistence.rs never meet: neither each other nor a digest.
use chunkstore.Base.{
  ℕ, ◌≡◌, ◌≢◌, refl, ap, Bool, true, false, not, ◌&&◌, ◌||◌, ◌==◌, List, [], ◌∷◌, ◌++◌, length, all,
  arith, if◌then◌else◌,
}
use chunkstore.Base.Text.{Text, codes, is_ascii_hexdigit, text_eq}
use chunkstore.Error.{ok}
use chunkstore.Backend.Lawful.{starts_with}
use chunkstore.Persistence.{
  validate_digest, manifest_key, refcount_key, manifest_index_key, refcount_index_key,
}

-- 64 bytes, each a hexadecimal digit.
abbrev pub IsDigest : Text → Type 0
IsDigest d = (length d ≡ 64) × (all is_ascii_hexdigit d ≡ true)

pub validate_digest_lem : (d : Text) → IsDigest d → validate_digest d ≡ ok tt
unfolding validate_digest
validate_digest_lem d h = ground arith

abbrev pub index_name : Text
index_name = codes "__index__"

abbrev pub manifest_prefix : Text
manifest_prefix = codes "_manifest/"

abbrev pub refcount_prefix : Text
refcount_prefix = codes "_refcount/"

-- No digest starts with an underscore.
underscore : is_ascii_hexdigit 95 ≡ false
unfolding is_ascii_hexdigit
underscore = refl

pub IsDigest-no-underscore : (d rest : Text) → IsDigest d → d ≢ 95 ∷ rest
IsDigest-no-underscore d rest h e =
    let bad : all is_ascii_hexdigit (95 ∷ rest) ≡ true = rw e at (h.1) in ground (arith, underscore)

starts_underscore : (d rest : Text) → IsDigest d → starts_with d (95 ∷ rest) ≡ false
starts_underscore [] rest h = refl
starts_underscore (c ∷ d) rest h = ground (arith, underscore)

pub IsDigest-ne-index_name : (d : Text) → IsDigest d → d ≢ index_name
unfolding codes
IsDigest-ne-index_name d h e = IsDigest-no-underscore d _ h e

pub starts_with-digest_manifest : (d : Text) → IsDigest d → starts_with d manifest_prefix ≡ false
unfolding codes
starts_with-digest_manifest d h = starts_underscore d (codes "manifest/") h

pub starts_with-digest_refcount : (d : Text) → IsDigest d → starts_with d refcount_prefix ≡ false
unfolding codes
starts_with-digest_refcount d h = starts_underscore d (codes "refcount/") h

pub starts_with-append : (p x : Text) → starts_with (p ++ x) p ≡ true
starts_with-append [] x = ground arith
starts_with-append (c ∷ p) x = ground (arith, starts_with-append p x)

pub starts_with-refcount_key : (d : Text) → starts_with (refcount_key d) refcount_prefix ≡ true
unfolding refcount_key
starts_with-refcount_key d = starts_with-append refcount_prefix d

pub starts_with-manifest_key : (f : Text) → starts_with (manifest_key f) manifest_prefix ≡ true
unfolding manifest_key
starts_with-manifest_key f = starts_with-append manifest_prefix f

pub starts_with-refcount_key_manifest :
    (d : Text) → starts_with (refcount_key d) manifest_prefix ≡ false
unfolding refcount_key codes
starts_with-refcount_key_manifest d = refl

pub starts_with-manifest_key_refcount :
    (f : Text) → starts_with (manifest_key f) refcount_prefix ≡ false
unfolding manifest_key codes
starts_with-manifest_key_refcount f = refl

pub refcount_index_key_lem : refcount_index_key ≡ refcount_key index_name
unfolding refcount_index_key refcount_key
refcount_index_key_lem = refl

pub manifest_index_key_lem : manifest_index_key ≡ manifest_key index_name
unfolding manifest_index_key manifest_key
manifest_index_key_lem = refl

append_cancel : (p x y : Text) → p ++ x ≡ p ++ y → x ≡ y
append_cancel [] x y e = e
append_cancel (c ∷ p) x y e = append_cancel p x y (chunkstore.Base.Text.tail_eq e)

pub refcount_key_inj : (d e : Text) → refcount_key d ≡ refcount_key e → d ≡ e
unfolding refcount_key
refcount_key_inj d e h = append_cancel refcount_prefix d e h

pub manifest_key_inj : (d e : Text) → manifest_key d ≡ manifest_key e → d ≡ e
unfolding manifest_key
manifest_key_inj d e h = append_cancel manifest_prefix d e h

-- No key belongs to both kinds of metadata.
pub prefixes_disjoint :
    (k : Text) → starts_with k manifest_prefix ≡ true → starts_with k refcount_prefix ≡ false
unfolding codes
prefixes_disjoint [] h = refl
prefixes_disjoint (c ∷ []) h = ground arith
prefixes_disjoint (c ∷ d ∷ k) h = ground arith

pub prefixes_disjoint_sym :
    (k : Text) → starts_with k refcount_prefix ≡ true → starts_with k manifest_prefix ≡ false
unfolding codes
prefixes_disjoint_sym [] h = refl
prefixes_disjoint_sym (c ∷ []) h = ground arith
prefixes_disjoint_sym (c ∷ d ∷ k) h = ground arith
