-- ===== src/Postgres/Trim.antt =====
-- `str::trim` of the Rust standard library, on the UTF-8 bytes of a text: the characters with the
-- Unicode property White_Space are dropped at both ends.
use chunkstore.Base.{
  ℕ, zero, suc, ◌≡◌, refl, if◌then◌else◌, Option, none, some, List, [], ◌∷◌, ◌++◌, map, length,
  drop,
}
use chunkstore.Base.Text.{Text, codes}
use chunkstore.Backend.Lawful.{starts_with}

-- U+2000 to U+200A, U+2028, U+2029 and U+202F begin with the bytes E2 80.
abbrev general_spaces : List Text
general_spaces =
    map (λ (b : ℕ). 226 ∷ 128 ∷ b ∷ [])
      (128 ∷ 129 ∷ 130 ∷ 131 ∷ 132 ∷ 133 ∷ 134 ∷ 135 ∷ 136 ∷ 137 ∷ 138 ∷ 168 ∷ 169 ∷ 175 ∷ [])

-- U+0009 to U+000D, U+0020, U+0085, U+00A0, U+1680, U+205F, U+3000, and those above.
abbrev pub white_space : List Text
white_space =
    map (λ (b : ℕ). b ∷ []) (9 ∷ 10 ∷ 11 ∷ 12 ∷ 13 ∷ 32 ∷ [])
    ++ ((194 ∷ 133 ∷ [])
        ∷ (194 ∷ 160 ∷ [])
        ∷ (225 ∷ 154 ∷ 128 ∷ [])
        ∷ (226 ∷ 129 ∷ 159 ∷ [])
        ∷ (227 ∷ 128 ∷ 128 ∷ [])
        ∷ general_spaces)

abbrev pub reverse_onto : Text → Text → Text
reverse_onto [] acc = acc
reverse_onto (c ∷ s) acc = reverse_onto s (c ∷ acc)

abbrev pub reverse : Text → Text
reverse s = reverse_onto s []

-- The text without the first of the characters that it begins with.
unfoldable pub strip_any : List Text → Text → Option Text
strip_any [] s = none
strip_any (w ∷ ws) s =
    let rest = strip_any ws s in if starts_with s w then some (drop (length w) s) else rest

-- Each round drops a byte at least, so the length of the text is fuel enough.
unfoldable pub strip_all : List Text → ℕ → Text → Text
strip_all ws zero s = s
strip_all ws (suc fuel) s = elim (strip_any ws s) [ none ↦ s | some rest ↦ strip_all ws fuel rest ]

unfoldable pub trim : Text → Text
unfolding strip_all strip_any
trim s =
    let front = strip_all white_space (length s) s in
    let back = reverse front in reverse (strip_all (map reverse white_space) (length back) back)

test_trim : trim (32 ∷ 226 ∷ 128 ∷ 168 ∷ codes "a b" ++ (194 ∷ 160 ∷ 10 ∷ [])) ≡ codes "a b"
unfolding trim strip_all strip_any codes
test_trim = refl
