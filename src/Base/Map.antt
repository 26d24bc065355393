-- ===== src/Base/Map.antt =====
-- `std::collections::HashMap` keyed by texts. The order of its iteration is unspecified; here an
-- inserted entry comes first. Proofs elsewhere go by the laws; only tests unfold the operations.
use Prim.Native.Nat.{ℕ, ◌+◌, ◌≤◌}
use mathlib.Core.Path.{◌≡◌, refl, sym}
use mathlib.Core.Option.{Option, none, some}
use mathlib.Core.Bool.{true}
use mathlib.Core.List.{List, [], ◌∷◌}
use native.Mathlib.Omega.{arith}
use chunkstore.Base.Tests.{if◌then◌else◌}
use chunkstore.Base.Text.{Text, text_eq}

abbrev pub Map {ℓ} : Type ℓ → Type ℓ
Map V = List (Text × V)

module _ {ℓ} {V : Type ℓ} where
  unfoldable pub lookup : Text → Map V → Option V
  lookup k [] = none
  lookup k ((j, v) ∷ m) = if text_eq k j then some v else lookup k m

  unfoldable pub remove : Text → Map V → Map V
  remove k [] = []
  remove k ((j, v) ∷ m) = let rest = remove k m in if text_eq k j then rest else (j, v) ∷ rest

  unfoldable pub insert : Text → V → Map V → Map V
  unfolding remove
  insert k v m = (k, v) ∷ remove k m

  pub lookup-remove :
      (j k : Text) (m : Map V) → lookup j (remove k m) ≡ (if text_eq j k then none else lookup j m)
  unfolding lookup remove
  lookup-remove j k [] = ground arith
  lookup-remove j k ((i, v) ∷ m) = ground (arith, lookup-remove j k m)

  pub lookup-insert :
      (j k : Text) (v : V) (m : Map V)
      → lookup j (insert k v m) ≡ (if text_eq j k then some v else lookup j m)
  unfolding lookup insert
  lookup-insert j k v m = ground (arith, lookup-remove j k m)

  -- No key is listed twice, as in every hash map.
  abbrev pub NodupKeys : Map V → Type ℓ
  NodupKeys [] = Unit
  NodupKeys ((k, v) ∷ m) = (lookup k m ≡ none) × NodupKeys m

  pub remove-NodupKeys : (k : Text) (m : Map V) → NodupKeys m → NodupKeys (remove k m)
  unfolding remove
  remove-NodupKeys k [] h = tt
  remove-NodupKeys k ((j, v) ∷ m) h = ground (arith, remove-NodupKeys k m h.1, lookup-remove j k m)

  pub insert-NodupKeys : (k : Text) (v : V) (m : Map V) → NodupKeys m → NodupKeys (insert k v m)
  unfolding insert
  insert-NodupKeys k v m h = (ground (arith, lookup-remove k k m), remove-NodupKeys k m h)

  -- A sum over the entries.
  abbrev pub total : (Text → V → ℕ) → Map V → ℕ
  total f [] = 0
  total f ((k, v) ∷ m) = f k v + total f m

  abbrev pub at : (V → ℕ) → Option V → ℕ
  at f none = 0
  at f (some v) = f v

  total-remove_absent :
      (f : Text → V → ℕ) (k : Text) (m : Map V)
      → lookup k m ≡ none
      → total f (remove k m) ≡ total f m
  unfolding lookup remove
  total-remove_absent f k [] h = refl
  total-remove_absent f k ((j, v) ∷ m) h = ground (arith, total-remove_absent f k m)

  pub total-remove :
      (f : Text → V → ℕ) (k : Text) (m : Map V)
      → NodupKeys m
      → total f (remove k m) + at (f k) (lookup k m) ≡ total f m
  unfolding lookup remove
  total-remove f k [] h = refl
  total-remove f k ((j, v) ∷ m) h =
      ground (arith, total-remove f k m h.1, total-remove_absent f k m)

  pub total-insert :
      (f : Text → V → ℕ) (k : Text) (v : V) (m : Map V)
      → NodupKeys m
      → total f (insert k v m) + at (f k) (lookup k m) ≡ total f m + f k v
  unfolding insert
  total-insert f k v m h = omega (arith, total-remove f k m h)

  -- Term by term.
  pub total-le :
      (f g : Text → V → ℕ) (m : Map V)
      → NodupKeys m
      → ((k : Text) (v : V) → lookup k m ≡ some v → f k v ≤ g k v)
      → total f m ≤ total g m
  unfolding lookup
  total-le f g [] h le = omega arith
  total-le f g ((k, v) ∷ m) h le =
      let here : f k v ≤ g k v = le k v (ground arith) in
      let rest : total f m ≤ total g m = total-le f g m h.1 (λ j w e. le j w (ground arith)) in
      omega arith

  -- A map with no entry at any key is empty.
  lookup-none : (m : Map V) → ((k : Text) → lookup k m ≡ none) → m ≡ []
  unfolding lookup
  lookup-none [] h = refl
  lookup-none ((k, v) ∷ m) h = absurd (ground (arith, h k))

  -- Two maps with the same entries, in whatever order, have the same sum.
  pub total-same :
      (f : Text → V → ℕ) (m n : Map V)
      → NodupKeys m
      → NodupKeys n
      → ((k : Text) → lookup k m ≡ lookup k n)
      → total f m ≡ total f n
  unfolding lookup
  total-same f [] n h i same = let e : n ≡ [] = lookup-none n (λ k. sym (same k)) in rw e refl
  total-same f ((k, v) ∷ m) n h i same =
      let found : lookup k n ≡ some v = ground (arith, same k) in
      let rest : total f m ≡ total f (remove k n) =
        total-same f m (remove k n) h.1 (remove-NodupKeys k n i)
          λ j. ground (arith, lookup-remove j k n, same j, h.0, absent j) in
      ground (arith, total-remove f k n i, rest, found)
    where
      absent : (j : Text) → text_eq j k ≡ true → lookup j m ≡ none
      absent j e = let same_key : j ≡ k = ground arith in rw same_key h.0
