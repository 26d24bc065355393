-- ===== src/Chunker/Fixed/Split.antt =====
-- How a file is cut into chunks of one size: what a cut is, and that it is unique.
use chunkstore.Base.{
  ℕ, ◌≤◌, ◌<◌, ◌≡◌, refl, ap, List, [], ◌∷◌, ◌++◌, arith, length, concat, All, length-append,
}
use Prim.Native.Nat.{min}
use chunkstore.Base.Text.{Bytes, cons_eq, head_eq, tail_eq}

-- Every chunk has `n` bytes but the last, which has between 1 and `n`.
abbrev pub IsSplit : ℕ → List Bytes → Type 0
IsSplit n [] = Unit
IsSplit n (c ∷ []) = (0 < length c) × (length c ≤ n)
IsSplit n (c ∷ d ∷ cs) = (length c ≡ n) × IsSplit n (d ∷ cs)

IsSplit-cons :
    (n : ℕ) (c : Bytes) (cs : List Bytes) → 0 < n → length c ≡ n → IsSplit n cs → IsSplit n (c ∷ cs)
IsSplit-cons n c [] p e h = (omega arith, omega arith)
IsSplit-cons n c (d ∷ cs) p e h = (e, h)

abbrev pub IsFull : ℕ → Bytes → Type 0
IsFull n c = length c ≡ n

pub IsSplit-append :
    (n : ℕ) (full later : List Bytes)
    → 0 < n
    → All (IsFull n) full
    → IsSplit n later
    → IsSplit n (full ++ later)
IsSplit-append n [] later p h k = k
IsSplit-append n (c ∷ full) later p h k =
    IsSplit-cons n c (full ++ later) p h.0 (IsSplit-append n full later p h.1 k)

append_inj :
    (xs ys us vs : Bytes) → length xs ≡ length ys → xs ++ us ≡ ys ++ vs → (xs ≡ ys) × (us ≡ vs)
append_inj [] [] us vs l e = (refl, e)
append_inj [] (y ∷ ys) us vs l e = absurd (omega arith)
append_inj (x ∷ xs) [] us vs l e = absurd (omega arith)
append_inj (x ∷ xs) (y ∷ ys) us vs l e =
    let (p, q) = append_inj xs ys us vs (omega arith) (tail_eq e) in (cons_eq (head_eq e) p, q)

-- The first chunk is as long as the cut size and the content allow.
length_first :
    (n : ℕ) (c : Bytes) (cs : List Bytes)
    → IsSplit n (c ∷ cs)
    → length c ≡ min n (length (concat (c ∷ cs)))
length_first n c [] h = omega (arith, length-append c [])
length_first n c (d ∷ cs) h = omega (arith, length-append c (concat (d ∷ cs)))

IsSplit-pos :
    (n : ℕ) (c : Bytes) (cs : List Bytes)
    → 0 < n
    → IsSplit n (c ∷ cs)
    → 0 < length (concat (c ∷ cs))
IsSplit-pos n c [] p h = omega (arith, length-append c [])
IsSplit-pos n c (d ∷ cs) p h = omega (arith, length-append c (concat (d ∷ cs)))

IsSplit-tail : (n : ℕ) (c : Bytes) (cs : List Bytes) → IsSplit n (c ∷ cs) → IsSplit n cs
IsSplit-tail n c [] h = tt
IsSplit-tail n c (d ∷ cs) h = h.1

-- Two cuts of one content are the same.
pub IsSplit-unique :
    (n : ℕ) (xs ys : List Bytes)
    → 0 < n
    → IsSplit n xs
    → IsSplit n ys
    → concat xs ≡ concat ys
    → xs ≡ ys
IsSplit-unique n [] [] p h k e = refl
IsSplit-unique n [] (y ∷ ys) p h k e = absurd (omega (arith, IsSplit-pos n y ys p k, ap length e))
IsSplit-unique n (x ∷ xs) [] p h k e = absurd (omega (arith, IsSplit-pos n x xs p h, ap length e))
IsSplit-unique n (x ∷ xs) (y ∷ ys) p h k e =
    let l : length x ≡ length y =
      omega (arith, length_first n x xs h, length_first n y ys k, ap length e) in
    let (first, rest) = append_inj x y (concat xs) (concat ys) l e in
    cc (first, IsSplit-unique n xs ys p (IsSplit-tail n x xs h) (IsSplit-tail n y ys k) rest)
