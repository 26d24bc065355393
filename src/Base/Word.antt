-- ===== src/Base/Word.antt =====
-- `u64` arithmetic, as a release build does it: `+` and `-` wrap, `saturating_*` stop at the ends.
use Prim.Native.Nat.{ℕ, ◌+◌, ◌-◌, ◌*◌, ◌%◌, ◌^◌, ◌≤◌, ◌<◌}
use mathlib.Core.Path.{◌≡◌}
use native.Mathlib.Omega.{arith}
use chunkstore.Base.Tests.{ltb, if◌then◌else◌}

abbrev pub word_size : ℕ
word_size = 2 ^ 64

-- a + b
unfoldable pub add : ℕ → ℕ → ℕ
add a b = (a + b) % word_size

-- a - b
unfoldable pub sub : ℕ → ℕ → ℕ
sub a b = (a + word_size - b) % word_size

-- a * b
unfoldable pub mul : ℕ → ℕ → ℕ
mul a b = (a * b) % word_size

-- a.saturating_sub(b)
abbrev pub saturating_sub : ℕ → ℕ → ℕ
saturating_sub a b = a - b

-- a.saturating_add(b)
unfoldable pub saturating_add : ℕ → ℕ → ℕ
saturating_add a b = if ltb (a + b) word_size then a + b else word_size - 1

pub add_lem : (a b : ℕ) → a + b < word_size → add a b ≡ a + b
unfolding add
add_lem a b h = omega arith

pub sub_lem : (a b : ℕ) → b ≤ a → a < word_size → sub a b ≡ a - b
unfolding sub
sub_lem a b h k = omega arith

pub add-lt : (a b : ℕ) → add a b < word_size
unfolding add
add-lt a b = omega arith
