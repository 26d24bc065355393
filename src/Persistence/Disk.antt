-- ===== src/Persistence/Disk.antt =====
-- What a write to the metadata of core/src/store/persistence.rs leaves alone.
use chunkstore.Base.{◌≡◌, ◌≢◌, ◌∙◌, ap, Bool, true, false, not, ◌&&◌, ◌||◌, arith, is_some}
use chunkstore.Base.Text.{Text, Bytes, text_eq}
use chunkstore.Base.Map.{Map, lookup, insert, remove, lookup-insert, lookup-remove}
use chunkstore.Backend.{ChunkBackend}
use chunkstore.Backend.Lawful.{IsLawful, starts_with}
use chunkstore.Json.{Json, IsJson}
use chunkstore.Persistence.{manifest_index_key, refcount_index_key}
use chunkstore.Persistence.Keys.{
  index_name, manifest_prefix, refcount_prefix, starts_with-refcount_key, starts_with-manifest_key,
  refcount_index_key_lem, manifest_index_key_lem,
}
use chunkstore.Persistence.Index.{Indexed, Keeps}

pub starts_refcount_index : starts_with refcount_index_key refcount_prefix ≡ true
starts_refcount_index = rw refcount_index_key_lem (starts_with-refcount_key index_name)

pub starts_manifest_index : starts_with manifest_index_key manifest_prefix ≡ true
starts_manifest_index = rw manifest_index_key_lem (starts_with-manifest_key index_name)

pub is_some-insert :
    {V : Type 0} (e d : Text) (v : V) (m : Map V)
    → (text_eq e d || is_some (lookup e m)) ≡ is_some (lookup e (insert d v m))
is_some-insert e d v m = rw lookup-insert (ground arith)

pub is_some-remove :
    {V : Type 0} (e d : Text) (m : Map V)
    → (not (text_eq e d) && is_some (lookup e m)) ≡ is_some (lookup e (remove d m))
is_some-remove e d m = rw lookup-remove (ground arith)

pub outside_ne :
    (k key prefix : Text) → starts_with key prefix ≡ true → starts_with k prefix ≡ false → k ≢ key
outside_ne k key prefix s o e = cc (ap (λ z. starts_with z prefix) e)

module _ (J : Json) (B : ChunkBackend) (json : IsJson J) (law : IsLawful B) where
  -- Nothing outside the keys with this prefix has changed.
  abbrev pub KeepsOutside : Text → B.State → B.State → Type 0
  KeepsOutside prefix b b' =
      (k : Text) → starts_with k prefix ≡ false → law.view b' k ≡ law.view b k

  -- What remains outside a prefix, after one write and one change of the index.
  pub outside_written :
      (prefix key index : Text) (v : Bytes) (b b' : B.State)
      → starts_with key prefix ≡ true
      → starts_with index prefix ≡ true
      → Keeps J B json law index (law.written key v b) b'
      → KeepsOutside prefix b b'
  outside_written prefix key index v b b' sk si keeps k o =
      keeps k (outside_ne k index prefix si o)
      ∙ law.view-written key v b k
      ∙ ground (arith, outside_ne k key prefix sk o)

  pub outside_deleted :
      (prefix key index : Text) (b b' : B.State)
      → starts_with key prefix ≡ true
      → starts_with index prefix ≡ true
      → Keeps J B json law index (law.deleted key b) b'
      → KeepsOutside prefix b b'
  outside_deleted prefix key index b b' sk si keeps k o =
      keeps k (outside_ne k index prefix si o)
      ∙ law.view-deleted key b k
      ∙ ground (arith, outside_ne k key prefix sk o)

  -- An index is untouched by a write at another key.
  pub Indexed-Keeps :
      (key other : Text) (keys : Text → Bool) (b b' : B.State)
      → key ≢ other
      → Keeps J B json law other b b'
      → Indexed J B json law b key keys
      → Indexed J B json law b' key keys
  Indexed-Keeps key other keys b b' ne keeps h = record {
    ids = h.ids;
    stored = rw (keeps key ne) h.stored;
    agrees = h.agrees;
  }

  pub Indexed-frame :
      (key : Text) (keys : Text → Bool) (b b' : B.State)
      → law.view b' key ≡ law.view b key
      → Indexed J B json law b key keys
      → Indexed J B json law b' key keys
  Indexed-frame key keys b b' same h = record {
    ids = h.ids;
    stored = rw same h.stored;
    agrees = h.agrees;
  }

  pub Indexed-same :
      (key : Text) (p q : Text → Bool) (b : B.State)
      → ((k : Text) → p k ≡ q k)
      → Indexed J B json law b key p
      → Indexed J B json law b key q
  Indexed-same key p q b same h = record {
    ids = h.ids;
    stored = h.stored;
    agrees = λ k. h.agrees k ∙ same k;
  }
