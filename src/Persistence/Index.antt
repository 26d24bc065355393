-- ===== src/Persistence/Index.antt =====
-- The index of keys on a lawful backend.
use chunkstore.Base.{
  ◌≡◌, ◌≢◌, ◌∙◌, refl, Bool, not, ◌&&◌, ◌||◌, inl, inr, ◌⊎◌, Option, none, some, List, [], ◌∷◌,
  ◌++◌, arith, Bool-cases,
}
use chunkstore.Base.Text.{Text, Bytes, text_eq}
use chunkstore.Error.{ok}
use chunkstore.Backend.{ChunkBackend}
use chunkstore.Backend.Lawful.{IsLawful, contains}
use chunkstore.Json.{Json, IsJson}
use chunkstore.Persistence.{
  read_string_list, write_string_list, add_to_index, remove_from_index, retain_ne,
}

contains-append :
    (k : Text) (xs ys : List Text) → contains k (xs ++ ys) ≡ (contains k xs || contains k ys)
contains-append k [] ys = refl
contains-append k (x ∷ xs) ys = ground (arith, contains-append k xs ys)

contains-retain_ne :
    (k key : Text) (xs : List Text)
    → contains k (retain_ne key xs) ≡ (not (text_eq k key) && contains k xs)
unfolding retain_ne
contains-retain_ne k key [] = ground arith
contains-retain_ne k key (x ∷ xs) = ground (arith, contains-retain_ne k key xs)

module _ (J : Json) (B : ChunkBackend) (json : IsJson J) (law : IsLawful B) where
  -- What is stored under a key reads as the list; a missing key reads as no entries.
  abbrev IsList : Option Bytes → List Text → Type 0
  IsList found l = (found ≡ some (json.list_bytes l)) ⊎ ((found ≡ none) × (l ≡ []))

  -- The index under `key` lists the ids at which `keys` is true.
  pub record Indexed (b : B.State) (key : Text) (keys : Text → Bool) : Type 0 where
    pub ids : List Text
    pub stored : IsList (law.view b key) ids
    pub agrees : (id : Text) → contains id ids ≡ keys id

  pub read_string_list_lem :
      (b : B.State) (key : Text) (l : List Text)
      → IsList (law.view b key) l
      → read_string_list J B key b ≡ (ok l, b)
  unfolding read_string_list
  read_string_list_lem b key l (inl e) = rw (law.get_lem, e, json.list_read)
  read_string_list_lem b key l (inr (e, empty)) = rw (law.get_lem, e, empty)

  write_string_list_lem :
      (b : B.State) (key : Text) (l : List Text)
      → write_string_list J B key l b ≡ (ok tt, law.written key (json.list_bytes l) b)
  unfolding write_string_list
  write_string_list_lem b key l = rw (json.list_written, law.put_lem)

  -- Nothing but `key` has changed.
  abbrev pub Keeps : Text → B.State → B.State → Type 0
  Keeps key b b' = (k : Text) → k ≢ key → law.view b' k ≡ law.view b k

  pub Indexed-written :
      (b : B.State) (key : Text) (l : List Text) (keys : Text → Bool)
      → ((id : Text) → contains id l ≡ keys id)
      → Indexed (law.written key (json.list_bytes l) b) key keys
  Indexed-written b key l keys agree = record {
    ids = l;
    stored = inl (law.view-written key (json.list_bytes l) b key ∙ ground arith);
    agrees = agree;
  }

  pub Keeps-written : (b : B.State) (key : Text) (v : Bytes) → Keeps key b (law.written key v b)
  Keeps-written b key v k ne = law.view-written key v b k ∙ ground arith

  pub Keeps-deleted : (b : B.State) (key : Text) → Keeps key b (law.deleted key b)
  Keeps-deleted b key k ne = law.view-deleted key b k ∙ ground arith

  pub add_to_index_lem :
      (b : B.State) (key id : Text) (keys : Text → Bool)
      → Indexed b key keys
      → (b' : B.State) × (add_to_index J B key id b ≡ (ok tt, b'))
        × Indexed b' key (λ e. text_eq e id || keys e)
        × Keeps key b b'
  unfolding add_to_index
  add_to_index_lem b key id keys h = elim (Bool-cases (contains id h.ids)) [
    | inl old ↦ (
      b,
      rw (read_string_list_lem b key h.ids h.stored, old),
      record { ids = h.ids; stored = h.stored; agrees = λ e. ground (arith, h.agrees e, old) },
      λ k ne. refl,
    )
    | inr new ↦ (
      law.written key (json.list_bytes (h.ids ++ id ∷ [])) b,
      rw (read_string_list_lem b key h.ids h.stored, new) (write_string_list_lem b key _),
      Indexed-written b key (h.ids ++ id ∷ []) _
          (λ e. contains-append e h.ids (id ∷ []) ∙ ground (arith, h.agrees e)),
      Keeps-written b key _,
    )
  ]

  pub remove_from_index_lem :
      (b : B.State) (key id : Text) (keys : Text → Bool)
      → Indexed b key keys
      → (b' : B.State) × (remove_from_index J B key id b ≡ (ok tt, b'))
        × Indexed b' key (λ e. not (text_eq e id) && keys e)
        × Keeps key b b'
  unfolding remove_from_index
  remove_from_index_lem b key id keys h = (
    law.written key (json.list_bytes (retain_ne id h.ids)) b,
    rw (read_string_list_lem b key h.ids h.stored) (write_string_list_lem b key _),
    Indexed-written b key (retain_ne id h.ids) _
        (λ e. contains-retain_ne e id h.ids ∙ ground (arith, h.agrees e)),
    Keeps-written b key _,
  )
