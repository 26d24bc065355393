-- ===== src/Example/Encoding.antt =====
-- A stand-in for `serde_json`: texts with their lengths before them, and a number for each kind of
-- value.
use chunkstore.Base.{
  ℕ, zero, suc, ◌<◌, ◌≡◌, refl, ap, ◌⊎◌, inl, inr, List, [], ◌∷◌, ◌++◌, arith, length, take, drop,
  length-append,
}
use chunkstore.Base.Text.{Text, Bytes}
use chunkstore.Json.{Json, IsJson, ManifestRecord, RefCountRecord, RefCountWire}

unfoldable pub write_list : List Text → Bytes
write_list [] = 0 ∷ []
write_list (t ∷ ts) = 1 ∷ length t ∷ (t ++ write_list ts)

cons_read : Text → Text ⊎ List Text → Text ⊎ List Text
cons_read t (inl e) = inl e
cons_read t (inr ts) = inr (t ∷ ts)

read_list_from : ℕ → Bytes → Text ⊎ List Text
unfolding cons_read
read_list_from zero bytes = inl []
read_list_from (suc fuel) [] = inl []
read_list_from (suc fuel) (zero ∷ bytes) = inr []
read_list_from (suc fuel) (suc zero ∷ []) = inl []
read_list_from (suc fuel) (suc zero ∷ n ∷ bytes) =
    cons_read (take n bytes) (read_list_from fuel (drop n bytes))
read_list_from (suc fuel) (suc (suc k) ∷ bytes) = inl []

unfoldable pub read_list : Bytes → Text ⊎ List Text
unfolding read_list_from
read_list bytes = read_list_from (length bytes) bytes

take-length : (t rest : Bytes) → take (length t) (t ++ rest) ≡ t
take-length [] rest = refl
take-length (x ∷ t) rest = ap (λ z. x ∷ z) (take-length t rest)

drop-length : (t rest : Bytes) → drop (length t) (t ++ rest) ≡ rest
drop-length [] rest = refl
drop-length (x ∷ t) rest = drop-length t rest

read_list_from-write_list :
    (fuel : ℕ) (ts : List Text) → length ts < fuel → read_list_from fuel (write_list ts) ≡ inr ts
unfolding read_list_from write_list
read_list_from-write_list zero ts h = absurd (omega arith)
read_list_from-write_list (suc fuel) [] h = refl
read_list_from-write_list (suc fuel) (t ∷ ts) h =
    rw (take-length, drop-length, read_list_from-write_list fuel ts (omega arith))

length-write_list : (ts : List Text) → length ts < length (write_list ts)
unfolding write_list
length-write_list [] = omega arith
length-write_list (t ∷ ts) = omega (arith, length-write_list ts, length-append t (write_list ts))

pub read_list-write_list : (ts : List Text) → read_list (write_list ts) ≡ inr ts
unfolding read_list
read_list-write_list ts = read_list_from-write_list _ ts (length-write_list ts)

unfoldable pub write_manifest : ManifestRecord → Bytes
write_manifest m = 2 ∷ m.file_bytes ∷ write_list m.digests

as_manifest : ℕ → Text ⊎ List Text → Text ⊎ ManifestRecord
as_manifest n (inl e) = inl e
as_manifest n (inr ds) = inr (record { digests = ds; file_bytes = n })

unfoldable pub read_manifest : Bytes → Text ⊎ ManifestRecord
unfolding as_manifest
read_manifest [] = inl []
read_manifest (k ∷ []) = inl []
read_manifest (k ∷ n ∷ bytes) = as_manifest n (read_list bytes)

unfoldable pub write_refcount : RefCountRecord → Bytes
write_refcount r = 3 ∷ r.count ∷ r.size ∷ []

unfoldable pub read_refcount : Bytes → Text ⊎ RefCountWire
read_refcount [] = inl []
read_refcount (k ∷ []) = inr (RefCountWire.legacy k)
read_refcount (k ∷ n ∷ []) = inl []
read_refcount (k ∷ n ∷ m ∷ bytes) = inr (RefCountWire.current (record { count = n; size = m }))

unfoldable pub numbers : Json
unfolding write_list read_list write_manifest read_manifest write_refcount read_refcount
numbers = record {
  list_to_vec = λ l. inr (write_list l);
  list_from_slice = read_list;
  manifest_to_vec = λ m. inr (write_manifest m);
  manifest_from_slice = read_manifest;
  refcount_to_vec = λ r. inr (write_refcount r);
  refcount_from_slice = read_refcount;
}

read_manifest-write_manifest : (m : ManifestRecord) → read_manifest (write_manifest m) ≡ inr m
unfolding read_manifest write_manifest
read_manifest-write_manifest m = rw read_list-write_list

no_list : (m : ManifestRecord) (l : List Text) → read_list (write_manifest m) ≡ inr l → ⊥
unfolding read_list write_manifest
no_list m l e = cc

pub numbers-IsJson : IsJson numbers
unfolding numbers
numbers-IsJson = record {
  list_bytes = write_list;
  manifest_bytes = write_manifest;
  refcount_bytes = write_refcount;
  list_written = λ l. refl;
  list_read = read_list-write_list;
  manifest_written = λ m. refl;
  manifest_read = read_manifest-write_manifest;
  refcount_written = λ r. refl;
  refcount_read = λ r. refl;
  manifest_no_list = no_list;
}

pub list_bytes_lem : (l : List Text) → numbers-IsJson.list_bytes l ≡ write_list l
unfolding numbers-IsJson
list_bytes_lem l = refl
