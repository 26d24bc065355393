-- ===== src/Ffi/Utf8.antt =====
-- `CStr::to_str` and `CString::new` of the Rust standard library, as core/src/ffi/store_ffi.rs uses
-- them. A C string is its bytes before the NUL.
use chunkstore.Base.{
  ℕ, zero, suc, ◌+◌, ◌≡◌, refl, ◌==◌, ltb, leb, Bool, ◌&&◌, if◌then◌else◌, Option, none, some, ◌⊎◌,
  inl, inr, [], ◌∷◌, ◌++◌, length, drop,
}
use chunkstore.Base.Text.{Text, Bytes, codes, decimal}

-- One character: its width, how many bytes of an invalid sequence to skip, or too few bytes.
pub data Step : Type 0 where
  width : ℕ → Step
  invalid : ℕ → Step
  incomplete : Step

-- `lo <= b <= hi`
abbrev within : ℕ → ℕ → ℕ → Bool
within lo hi b = leb lo b && leb b hi

abbrev byte_at : ℕ → Bytes → Option ℕ
byte_at i [] = none
byte_at zero (b ∷ bytes) = some b
byte_at (suc i) (b ∷ bytes) = byte_at i bytes

-- The byte is a continuation in this range, or the sequence stops here.
abbrev continued : Option ℕ → ℕ → ℕ → ℕ → Step → Step
continued none lo hi skip next = incomplete
continued (some b) lo hi skip next = if within lo hi b then next else invalid skip

-- A sequence of so many bytes, the second of which lies in a range.
abbrev sequence : ℕ → ℕ → ℕ → Bytes → Step
sequence n lo hi rest =
    let fourth = if n == 3 then width 3 else continued (byte_at 2 rest) 128 191 3 (width 4) in
    let third = if n == 2 then width 2 else continued (byte_at 1 rest) 128 191 2 fourth in
    continued (byte_at 0 rest) lo hi 1 third

-- By the first byte.
unfoldable pub first_char : ℕ → Bytes → Step
first_char b rest =
    if ltb b 128
    then width 1
    else (if within 194 223 b
        then sequence 2 128 191 rest
        else (if b == 224
            then sequence 3 160 191 rest
            else (if b == 237
                then sequence 3 128 159 rest
                else (if within 225 239 b
                    then sequence 3 128 191 rest
                    else (if b == 240
                        then sequence 4 144 191 rest
                        else (if within 241 243 b
                            then sequence 4 128 191 rest
                            else (if b == 244 then sequence 4 128 143 rest else invalid 1)))))))

-- `Display` of `Utf8Error`.
abbrev complaint : ℕ → Step → Option Text
complaint index (width n) = none
complaint index (invalid n) = some (
    codes "invalid utf-8 sequence of "
    ++ (decimal n ++ (codes " bytes from index " ++ decimal index)))
complaint index incomplete =
    some (codes "incomplete utf-8 byte sequence from index " ++ decimal index)

abbrev width_of : Step → ℕ
width_of (width n) = n
width_of (invalid n) = 1
width_of incomplete = 1

-- The first complaint. Each round takes a byte at least, so the length is fuel enough.
unfoldable pub utf8_error : ℕ → ℕ → Bytes → Option Text
unfolding first_char
utf8_error zero index bytes = none
utf8_error (suc fuel) index [] = none
utf8_error (suc fuel) index (b ∷ bytes) =
    let step = first_char b bytes in
    let rest = utf8_error fuel (index + width_of step) (drop (width_of step) (b ∷ bytes)) in
    elim (complaint index step) [ some e ↦ some e | none ↦ rest ]

-- `CStr::from_ptr(p).to_str()`, with the error as its message.
unfoldable pub to_str : Bytes → Text ⊎ Text
unfolding utf8_error
to_str bytes = elim (utf8_error (length bytes) 0 bytes) [ some e ↦ inl e | none ↦ inr bytes ]

-- The position of the first NUL.
unfoldable pub nul_position : ℕ → Text → Option ℕ
nul_position i [] = none
nul_position i (c ∷ text) = let rest = nul_position (i + 1) text in if c == 0 then some i else rest

-- `CString::new(text)`, with the error as its message.
unfoldable pub cstring_new : Text → Text ⊎ Text
unfolding nul_position
cstring_new text = elim (nul_position 0 text) [
  | some i ↦ inl (codes "nul byte found in provided data at position: " ++ decimal i)
  | none ↦ inr text
]

test_two_bytes : to_str (97 ∷ 195 ∷ 164 ∷ []) ≡ inr (97 ∷ 195 ∷ 164 ∷ [])
unfolding to_str utf8_error first_char
test_two_bytes = refl

test_invalid : to_str (97 ∷ 255 ∷ []) ≡ inl (codes "invalid utf-8 sequence of 1 bytes from index 1")
unfolding to_str utf8_error first_char codes decimal
test_invalid = refl

test_incomplete :
    to_str (226 ∷ 130 ∷ []) ≡ inl (codes "incomplete utf-8 byte sequence from index 0")
unfolding to_str utf8_error first_char codes decimal
test_incomplete = refl

test_surrogate :
    to_str (237 ∷ 160 ∷ 128 ∷ []) ≡ inl (codes "invalid utf-8 sequence of 1 bytes from index 0")
unfolding to_str utf8_error first_char codes decimal
test_surrogate = refl
