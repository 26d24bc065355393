-- ===== src/Exec/Inversion.antt =====
-- What a successful run says of its parts.
use chunkstore.Base.{◌≡◌, refl, ◌∙◌, ◌⊎◌, inl, inr}
use chunkstore.Base.Text.{Text}
use chunkstore.Error.{Result, ok, err, hang, ChunkStoreError, map_err}
use chunkstore.Exec.{Exec, continue, ◌>>=◌}

-- The answer is not `Ok(..)`.
abbrev pub IsFailure {ℓ} : {A : Type ℓ} → Result A → Type 0
IsFailure (ok a) = ⊥
IsFailure (err e) = Unit
IsFailure hang = Unit

pub map_err-ok {ℓ} :
    {A : Type ℓ} (r : Text ⊎ A) (f : Text → ChunkStoreError) (a : A)
    → map_err r f ≡ ok a
    → r ≡ inr a
map_err-ok (inl m) f a e = absurd (cc)
map_err-ok (inr b) f a e = cc

module _ {ℓ κ μ} {S : Type ℓ} {A : Type κ} {B : Type μ} where
  pub continue-ok :
      (r : Result A) (f : A → Exec S B) (s t : S) (b : B)
      → continue r f s ≡ (ok b, t)
      → (a : A) × (r ≡ ok a) × (f a s ≡ (ok b, t))
  continue-ok (ok a) f s t b e = (a, refl, e)
  continue-ok (err m) f s t b e = absurd (cc)
  continue-ok hang f s t b e = absurd (cc)

  -- `m?` returned, so `m` did, and the rest on its value.
  pub bind-ok :
      (m : Exec S A) (f : A → Exec S B) (s t : S) (b : B)
      → (m >>= f) s ≡ (ok b, t)
      → (a : A) × (u : S) × (m s ≡ (ok a, u)) × (f a u ≡ (ok b, t))
  bind-ok m f s t b e =
      let (a, first, rest) = continue-ok (m s).0 f (m s).1 t b e in (a, (m s).1, cc, rest)

  -- What every part keeps, the whole keeps, wherever it stops.
  continue-keeps {ν} :
      {V : Type ν} (view : S → V) (r : Result A) (f : A → Exec S B) (s : S)
      → ((a : A) → view (f a s).1 ≡ view s)
      → view (continue r f s).1 ≡ view s
  continue-keeps view (ok a) f s h = h a
  continue-keeps view (err m) f s h = refl
  continue-keeps view hang f s h = refl

  pub bind-keeps {ν} :
      {V : Type ν} (view : S → V) (m : Exec S A) (f : A → Exec S B) (s : S)
      → view (m s).1 ≡ view s
      → ((a : A) (t : S) → view (f a t).1 ≡ view t)
      → view ((m >>= f) s).1 ≡ view s
  bind-keeps view m f s first rest =
      continue-keeps view (m s).0 f (m s).1 (λ a. rest a (m s).1) ∙ first

  -- After a failure nothing more is run.
  continue-IsFailure :
      (r : Result A) (f : A → Exec S B) (s : S)
      → IsFailure r
      → IsFailure (continue r f s).0 × ((continue r f s).1 ≡ s)
  continue-IsFailure (ok a) f s h = absurd h
  continue-IsFailure (err e) f s h = (tt, refl)
  continue-IsFailure hang f s h = (tt, refl)

  pub bind-IsFailure :
      (m : Exec S A) (f : A → Exec S B) (s : S)
      → IsFailure (m s).0
      → IsFailure ((m >>= f) s).0 × (((m >>= f) s).1 ≡ (m s).1)
  bind-IsFailure m f s h = continue-IsFailure (m s).0 f (m s).1 h
