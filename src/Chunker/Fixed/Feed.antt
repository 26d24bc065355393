-- ===== src/Chunker/Fixed/Feed.antt =====
-- What the fixed-size chunker of core/src/chunker/fixed.rs emits.
use chunkstore.Base.{
  ℕ, zero, suc, ◌≤◌, ◌<◌, ◌≡◌, refl, sym, ap, ◌∙◌, true, leb, Bool-cases, Option-cases, inl, inr,
  some, List, [], ◌∷◌, ◌++◌, arith, length, take, drop, concat, All, length-drop, length-take,
  take-append-drop, append_assoc, append-nil, concat-append,
}
use chunkstore.Base.Text.{Bytes}
use chunkstore.Error.{Result, ok, hang}
use chunkstore.Chunker.Trait.{ReadEvent, bytes, failed, content}
use chunkstore.Chunker.Drive.{collect, chunk_reader-eq-collect}
use chunkstore.Chunker.{chunk_reader}
use chunkstore.Chunker.Fixed.{FixedChunker, new, drain, feed, finish, fixed_chunker}
use chunkstore.Chunker.Fixed.Split.{IsSplit, IsFull, IsSplit-append, IsSplit-unique}

-- What the loop of `feed` leaves: whole chunks to hand out, and less than a chunk to keep.
record Drained (n : ℕ) (buffer : Bytes) (full : List Bytes) (rest : Bytes) : Type 0 where
  contents : concat full ++ rest ≡ buffer
  sizes : All (IsFull n) full
  short : length rest < n

-- Enough fuel ends the loop.
drain-Drained :
    (fuel n : ℕ) (buffer : Bytes) (out : List Bytes)
    → 0 < n
    → length buffer < fuel
    → (full : List Bytes) × (rest : Bytes) × (drain fuel n buffer out ≡ ok (out ++ full, rest))
      × Drained n buffer full rest
unfolding drain
drain-Drained zero n buffer out p h = absurd (omega arith)
drain-Drained (suc fuel) n buffer out p h = elim (Bool-cases (leb n (length buffer))) [
  | inl more ↦
      let enough : n ≤ length buffer = ground arith in
      let (full, rest, e, d) =
        drain-Drained fuel n (drop n buffer) (out ++ take n buffer ∷ []) p
          (omega (arith, length-drop n buffer)) in
      (
        take n buffer ∷ full,
        rest,
        rw more (e ∙ rw append_assoc),
        record {
          contents =
              append_assoc (take n buffer) (concat full) rest
              ∙ rw d.contents (take-append-drop n buffer);
          sizes = (length-take n buffer enough, d.sizes);
          short = d.short;
        },
      )
  | inr done ↦ (
    [],
    buffer,
    rw (done, append-nil),
    record { contents = refl; sizes = tt; short = ground arith },
  )
]

-- With chunks of no bytes the loop never ends: it runs out of any fuel, on any buffer.
pub drain_zero : (fuel : ℕ) (buffer : Bytes) (out : List Bytes) → drain fuel 0 buffer out ≡ hang
unfolding drain
drain_zero zero buffer out = refl
drain_zero (suc fuel) buffer out = rw (leb_zero (length buffer)) (drain_zero fuel buffer _)
  where
    leb_zero : (k : ℕ) → leb 0 k ≡ true
    leb_zero k = ground arith

abbrev holding : ℕ → Bytes → FixedChunker
holding n buffer = record { chunk_size = n; buffer = buffer }

feed-Drained :
    (n : ℕ) (buffer more : Bytes)
    → 0 < n
    → (full : List Bytes) × (rest : Bytes) × (feed more (holding n buffer)
        ≡ (ok full, holding n rest))
      × Drained n (buffer ++ more) full rest
unfolding feed
feed-Drained n buffer more p =
    let (full, rest, e, d) =
      drain-Drained (suc (length (buffer ++ more))) n (buffer ++ more) [] p (omega arith) in
    (full, rest, rw e, d)

-- The chunks of `data'`, all of one size but the last.
abbrev pub Emits {ℓ} : {C : Type ℓ} → ℕ → Bytes → Result (List Bytes) × C → Type 0
Emits n data' m =
    (chunks : List Bytes) × (m.0 ≡ ok chunks) × (concat chunks ≡ data') × IsSplit n chunks

finish-Emits :
    (n : ℕ) (buffer : Bytes) → length buffer < n → Emits n buffer (finish (holding n buffer))
unfolding finish
finish-Emits n [] h = ([], refl, refl, tt)
finish-Emits n (b ∷ buffer) h =
    ((b ∷ buffer) ∷ [], refl, append-nil (b ∷ buffer), (omega arith, omega arith))

finish-Emits_at_end :
    (n : ℕ) (buffer data' : Bytes)
    → length buffer < n
    → some [] ≡ some data'
    → Emits n (buffer ++ data') (finish (holding n buffer))
finish-Emits_at_end n buffer data' h e =
    let same : [] ≡ data' = cc in rw (← same, append-nil) (finish-Emits n buffer h)

reassemble :
    (full chunks : List Bytes) (rest later buffer more : Bytes)
    → concat full ++ rest ≡ buffer ++ more
    → concat chunks ≡ rest ++ later
    → concat (full ++ chunks) ≡ buffer ++ (more ++ later)
reassemble full chunks rest later buffer more d c =
    concat-append full chunks
    ∙ rw (c, ← append_assoc (concat full) rest later, d) (append_assoc buffer more later)

collect-Emits :
    (reader : List ReadEvent) (n : ℕ) (buffer data' : Bytes)
    → 0 < n
    → length buffer < n
    → content reader ≡ some data'
    → Emits n (buffer ++ data') (collect fixed_chunker reader (holding n buffer))
unfolding collect
collect-Emits [] n buffer data' p h e = finish-Emits_at_end n buffer data' h e
collect-Emits (failed x ∷ reader) n buffer data' p h e = cc
collect-Emits (bytes [] ∷ reader) n buffer data' p h e = finish-Emits_at_end n buffer data' h e
collect-Emits (bytes (b ∷ buf) ∷ reader) n buffer data' p h e =
    elim (Option-cases (content reader)) [
      | inl failing ↦ absurd (ground arith)
      | inr (later, f) ↦
          let (full, rest, fed, d) = feed-Drained n buffer (b ∷ buf) p in
          let (chunks, r, c, s) = collect-Emits reader n rest later p d.short f in
          let same : (b ∷ buf) ++ later ≡ data' = ground arith in
          (
            full ++ chunks,
            rw fed (rw r),
            rw (← same) (reassemble full chunks rest later buffer (b ∷ buf) d.contents c),
            IsSplit-append n full chunks p d.sizes s,
          )
    ]

-- With a positive chunk size, a reader without errors is cut into its whole content: the chunks put together are the bytes
-- that were read, and each has the chunk size but the last, which has at most that and is not
-- empty.
pub chunk_reader_fixed :
    (reader : List ReadEvent) (n : ℕ) (data' : Bytes)
    → 0 < n
    → content reader ≡ some data'
    → Emits n data' (chunk_reader fixed_chunker reader (new n))
unfolding new
chunk_reader_fixed reader n data' p e =
    rw (chunk_reader-eq-collect fixed_chunker reader (holding n []))
      (collect-Emits reader n [] data' p p e)

-- With a positive chunk size the cut depends on the content alone: two readers that yield the same
-- bytes without an error, in whatever pieces, give the same chunks.
pub chunk_reader_pieces :
    (r s : List ReadEvent) (n : ℕ) (data' : Bytes)
    → 0 < n
    → content r ≡ some data'
    → content s ≡ some data'
    → (chunk_reader fixed_chunker r (new n)).0 ≡ (chunk_reader fixed_chunker s (new n)).0
chunk_reader_pieces r s n data' p e f =
    let (xs, rx, cx, sx) = chunk_reader_fixed r n data' p e in
    let (ys, ry, cy, sy) = chunk_reader_fixed s n data' p f in
    rx ∙ ap ok (IsSplit-unique n xs ys p sx sy (cx ∙ sym cy)) ∙ sym ry

-- Feeding the whole content and finishing gives the same kind of cut.
pub whole_fixed :
    (n : ℕ) (data' : Bytes)
    → 0 < n
    → (early last : List Bytes) × (c : FixedChunker) × (feed data' (new n) ≡ (ok early, c))
      × ((finish c).0 ≡ ok last)
      × (concat (early ++ last) ≡ data')
      × IsSplit n (early ++ last)
unfolding new
whole_fixed n data' p =
    let (full, rest, fed, d) = feed-Drained n [] data' p in
    let (last, r, c, s) = finish-Emits n rest d.short in
    (
      full,
      last,
      holding n rest,
      fed,
      r,
      concat-append full last ∙ rw (c, d.contents),
      IsSplit-append n full last p d.sizes s,
    )
