-- ===== src/Example/Hash.antt =====
-- Stand-ins for the `sha2` and `fastcdc` crates that meet their laws: a hash that pads its input,
-- and a cut after every byte.
use chunkstore.Base.{
  some, ℕ, zero, suc, ◌+◌, ◌%◌, ◌≤◌, ◌≡◌, refl, ap, List, [], ◌∷◌, arith, length, All,
}
use chunkstore.Base.Text.{Bytes}
use chunkstore.Hasher.Laws.{IsByte, IsSha256}
use chunkstore.Chunker.Cdc.{FastCdc}
use chunkstore.Chunker.Cdc.Tiles.{Tiles, IsFastCdc}

pad : ℕ → Bytes → Bytes
pad zero content = []
pad (suc n) [] = 0 ∷ pad n []
pad (suc n) (x ∷ content) = (x % 256) ∷ pad n content

unfoldable pub padded : Bytes → Bytes
unfolding pad
padded content = pad 32 content

length-pad : (n : ℕ) (content : Bytes) → length (pad n content) ≡ n
unfolding pad
length-pad zero content = refl
length-pad (suc n) [] = ap suc (length-pad n [])
length-pad (suc n) (x ∷ content) = ap suc (length-pad n content)

bytes-pad : (n : ℕ) (content : Bytes) → All IsByte (pad n content)
unfolding pad
bytes-pad zero content = tt
bytes-pad (suc n) [] = (omega arith, bytes-pad n [])
bytes-pad (suc n) (x ∷ content) = (omega arith, bytes-pad n content)

pub padded-IsSha256 : IsSha256 padded
unfolding padded
padded-IsSha256 = record { length_hash = length-pad 32; bytes_hash = bytes-pad 32 }

singles : ℕ → Bytes → List (ℕ × ℕ)
singles from [] = []
singles from (x ∷ content) = (from, 1) ∷ singles (from + 1) content

unfoldable pub every_byte : FastCdc
unfolding singles
every_byte content min avg max = some (singles 0 content)

singles-Tiles :
    (max from to : ℕ) (content : Bytes)
    → 1 ≤ max
    → from + length content ≡ to
    → Tiles max from to (singles from content)
unfolding singles
singles-Tiles max from to [] h e = omega arith
singles-Tiles max from to (x ∷ content) h e =
    (refl, omega arith, h, omega arith, singles-Tiles max (from + 1) to content h (omega arith))

pub every_byte-IsFastCdc : IsFastCdc every_byte
unfolding every_byte
every_byte-IsFastCdc = record {
  tiles = λ content config sane within.
      let tiled =
        singles-Tiles config.max_size 0 (length content) content (omega (arith, sane, within))
          (omega arith) in
      (singles 0 content, refl, tiled);
}
