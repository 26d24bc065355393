-- ===== src/Base/Text.antt =====
-- Rust's `String` and `Vec<u8>`: lists of bytes. A text is its UTF-8 bytes, so `len()` is `length`.
use Prim.Native.Nat.{ℕ, zero, suc, ◌+◌, ◌/◌, ◌%◌}
use Prim.Native.Char.{code}
use Prim.Native.String.{String}
use mathlib.Core.Path.{◌≡◌, refl}
use mathlib.Core.Logic.{ite, dite}
use mathlib.Core.Bool.{Bool, true, false, ◌&&◌, ◌||◌}
use mathlib.Core.List.{List, [], ◌∷◌}
use native.Mathlib.Omega.{arith}
use native.Mathlib.Decide.{ℕ_discrete}
use chunkstore.Base.Tests.{leb, ltb, if◌then◌else◌}

abbrev pub Bytes : Type 0
Bytes = List ℕ

abbrev pub Text : Type 0
Text = List ℕ

-- A string literal of the source, all of which are ASCII.
unfoldable pub codes : String → Text
codes String.[] = []
codes (String.◌∷◌ c s) = code c ∷ codes s

pub cons_eq : {x y : ℕ} {xs ys : Text} → x ≡ y → xs ≡ ys → ◌≡◌ {A = Text} (x ∷ xs) (y ∷ ys)
cons_eq p q = cc

pub head_eq : {x y : ℕ} {xs ys : Text} → ◌≡◌ {A = Text} (x ∷ xs) (y ∷ ys) → x ≡ y
head_eq e = cc

pub tail_eq : {x y : ℕ} {xs ys : Text} → ◌≡◌ {A = Text} (x ∷ xs) (y ∷ ys) → xs ≡ ys
tail_eq e = cc

unfoldable pub Text-discrete : Discrete Text
unfolding ℕ_discrete
Text-discrete [] [] = yes refl
Text-discrete [] (y ∷ ys) = no (λ e. cc)
Text-discrete (x ∷ xs) [] = no (λ e. cc)
Text-discrete (x ∷ xs) (y ∷ ys) =
    let rest = Text-discrete xs ys in
    dite (ℕ_discrete x y)
      (λ p. dite rest (λ q. yes (cons_eq p q)) (λ differ. no (λ e. differ (tail_eq e))))
      (λ differ. no (λ e. differ (head_eq e)))

-- `u8::is_ascii_hexdigit`. A byte of a longer UTF-8 sequence is at least 128, so this also reads
-- `chars().all(..)`.
unfoldable pub is_ascii_hexdigit : ℕ → Bool
is_ascii_hexdigit c = leb 48 c && leb c 57 || leb 97 c && leb c 102 || leb 65 c && leb c 70

-- `{n}` in a format string. A `u64` has at most 20 digits.
decimal_digits : ℕ → ℕ → Text → Text
decimal_digits zero n acc = acc
decimal_digits (suc fuel) n acc =
    let rest = decimal_digits fuel (n / 10) ((48 + n % 10) ∷ acc) in
    if ltb n 10 then (48 + n) ∷ acc else rest

unfoldable pub decimal : ℕ → Text
unfolding decimal_digits
decimal n = decimal_digits 20 n []

-- `a == b` on strings.
abbrev pub text_eq : Text → Text → Bool
text_eq s t = ite (Text-discrete s t) true false

pub text_eq_refl : (s : Text) → text_eq s s ≡ true
text_eq_refl s = ground arith

test_eq : text_eq (codes "ab") (codes "ab") ≡ true
unfolding codes Text-discrete
test_eq = refl

test_ne : text_eq (codes "ab") (codes "aa") ≡ false
unfolding codes Text-discrete
test_ne = refl

test_decimal : decimal 4096 ≡ codes "4096"
unfolding decimal codes
test_decimal = refl
