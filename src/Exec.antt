-- ===== src/Exec.antt =====
-- Methods that change an object and may return early with an error. What was written before an
-- error stays written, so the state comes back beside the error too.
pub mod Inversion
use chunkstore.Base.{◌≡◌, refl, List, [], ◌∷◌, ◌++◌}
use chunkstore.Error.{Result, ok, err, hang, ChunkStoreError}

abbrev pub Exec {ℓ κ} : Type ℓ → Type κ → Type (ℓ ⊔ κ)
Exec S A = S → Result A × S

module _ {ℓ κ} {S : Type ℓ} {A : Type κ} where
  abbrev pub pure : A → Exec S A
  pure a s = (ok a, s)

  abbrev pub fail : ChunkStoreError → Exec S A
  fail e s = (err e, s)

  -- A result that touches no state.
  abbrev pub lift : Result A → Exec S A
  lift r s = (r, s)

module _ {ℓ κ μ} {S : Type ℓ} {A : Type κ} {B : Type μ} where
  abbrev pub continue : Result A → (A → Exec S B) → Exec S B
  continue (ok a) f s = f a s
  continue (err e) f s = (err e, s)
  continue hang f s = (hang, s)

  infixl 5 ◌>>=◌
  -- `?`: go on with the value, or return the error.
  abbrev pub ◌>>=◌ : Exec S A → (A → Exec S B) → Exec S B
  ◌>>=◌ m f s = let (r, s') = m s in continue r f s'

infixl 5 ◌>>◌
abbrev pub ◌>>◌ {ℓ κ} : {S : Type ℓ} {B : Type κ} → Exec S (Unit {0}) → Exec S B → Exec S B
m >> k = m >>= λ _. k

module _ {ℓ κ} {S : Type ℓ} {A : Type κ} where
  -- `for x in xs { f(x)?; }`
  unfoldable pub each : (A → Exec S (Unit {0})) → List A → Exec S (Unit {0})
  each f [] s = (ok tt, s)
  each f (x ∷ xs) s = (f x >>= λ _. each f xs) s

  each-append_from :
      (f : A → Exec S (Unit {0})) (xs ys : List A) (r : Result (Unit {0})) (s : S)
      → ((t : S) → each f (xs ++ ys) t ≡ (each f xs >> each f ys) t)
      → continue r (λ _. each f (xs ++ ys)) s
        ≡ ((λ (t : S). continue r (λ _. each f xs) t) >> each f ys) s
  each-append_from f xs ys (ok a) s ih = ih s
  each-append_from f xs ys (err e) s ih = refl
  each-append_from f xs ys hang s ih = refl

  -- A loop over two lists is the loop over the first, then, unless that failed, over the second.
  pub each-append :
      (f : A → Exec S (Unit {0})) (xs ys : List A) (s : S)
      → each f (xs ++ ys) s ≡ (each f xs >> each f ys) s
  unfolding each
  each-append f [] ys s = refl
  each-append f (x ∷ xs) ys s =
      each-append_from f xs ys (f x s).0 (f x s).1 (λ t. each-append f xs ys t)
