-- ===== src/Postgres/Trimmed.antt =====
-- `trim` of core/src/store/postgres_meta.rs leaves a digest alone.
use chunkstore.Base.{
  ℕ, zero, suc, ◌≡◌, ◌∙◌, refl, Bool, true, false, not, ◌==◌, none, List, [], ◌∷◌, ◌++◌, all, map,
  arith, append-nil, length,
}
use chunkstore.Base.Text.{Text, is_ascii_hexdigit}
use chunkstore.Postgres.Trim.{white_space, reverse_onto, reverse, strip_any, strip_all, trim}

-- The text begins with a byte that is no digit.
abbrev starts_apart : Text → Bool
starts_apart [] = false
starts_apart (b ∷ w) = not (is_ascii_hexdigit b)

strip_any-none :
    (ws : List Text) (d : Text)
    → all starts_apart ws ≡ true
    → all is_ascii_hexdigit d ≡ true
    → strip_any ws d ≡ none
unfolding strip_any
strip_any-none [] d apart h = refl
strip_any-none ([] ∷ ws) d apart h = absurd (cc)
strip_any-none ((b ∷ w) ∷ ws) [] apart h = strip_any-none ws [] (ground arith) h
strip_any-none ((b ∷ w) ∷ ws) (c ∷ d) apart h =
    let other : (c == b) ≡ false = ground arith in
    rw other (strip_any-none ws (c ∷ d) (ground arith) h)

strip_all_same :
    (ws : List Text) (fuel : ℕ) (d : Text)
    → all starts_apart ws ≡ true
    → all is_ascii_hexdigit d ≡ true
    → strip_all ws fuel d ≡ d
unfolding strip_all
strip_all_same ws zero d apart h = refl
strip_all_same ws (suc fuel) d apart h = rw (strip_all, strip_any-none ws d apart h) refl

all-reverse_onto :
    (d acc : Text)
    → all is_ascii_hexdigit d ≡ true
    → all is_ascii_hexdigit acc ≡ true
    → all is_ascii_hexdigit (reverse_onto d acc) ≡ true
all-reverse_onto [] acc h k = k
all-reverse_onto (c ∷ d) acc h k = all-reverse_onto d (c ∷ acc) (ground arith) (ground arith)

reverse_onto-reverse_onto :
    (d acc back : Text) → reverse_onto (reverse_onto d acc) back ≡ reverse_onto acc (d ++ back)
reverse_onto-reverse_onto [] acc back = refl
reverse_onto-reverse_onto (c ∷ d) acc back = reverse_onto-reverse_onto d (c ∷ acc) back

apart_front : all starts_apart white_space ≡ true
unfolding is_ascii_hexdigit
apart_front = refl

apart_back : all starts_apart (map reverse white_space) ≡ true
unfolding is_ascii_hexdigit
apart_back = refl

pub trim-hex : (d : Text) → all is_ascii_hexdigit d ≡ true → trim d ≡ d
unfolding trim
trim-hex d h =
    let back =
      strip_all_same (map reverse white_space) (length (reverse d)) (reverse d) apart_back
        (all-reverse_onto d [] h refl) in
    rw (strip_all_same white_space (length d) d apart_front h, back)
      (reverse_onto-reverse_onto d [] [] ∙ append-nil d)
