-- ===== src/Chunker/Drive.antt =====
-- The loops of core/src/chunker/mod.rs against what a chunker emits.
use chunkstore.Base.{
  ◌≡◌, refl, sym, ◌∙◌, if◌then◌else◌, List, [], ◌∷◌, ◌++◌, is_empty, append-nil, append_assoc,
}
use chunkstore.Base.Text.{Bytes}
use chunkstore.Error.{Result, ok, err, hang, io_error}
use chunkstore.Exec.{Exec, pure, continue, ◌>>=◌, ◌>>◌, each, each-append}
use chunkstore.Chunker.Trait.{Chunker, ReadEvent, bytes, failed}
use chunkstore.Chunker.{hand_on, for_each_chunk, push, chunk_reader}

-- All that a chunker emits over a reader, in order.
module _ (C : Chunker) where
  unfoldable pub collect : List ReadEvent → Exec C.State (List Bytes)
  collect [] c = C.finish c
  collect (failed e ∷ reader) c = (err (io_error e), c)
  collect (bytes buf ∷ reader) c =
      let rest = (do chunks ← C.feed buf; later ← collect reader; pure (chunks ++ later)) c in
      if is_empty buf then C.finish c else rest

each-push : (chunks acc : List Bytes) → each push chunks acc ≡ (ok tt, acc ++ chunks)
unfolding each
each-push [] acc = rw append-nil
each-push (x ∷ chunks) acc = each-push chunks (acc ++ x ∷ []) ∙ rw append_assoc

-- The result of `chunk_reader`, from what its loop leaves.
abbrev close {ℓ} : {C : Type ℓ} → Result (Unit {0}) × (C × List Bytes) → Result (List Bytes) × C
close (r, (c, chunks)) = continue r (λ _. pure chunks) c

abbrev after {ℓ} : {C : Type ℓ} → List Bytes → Result (List Bytes) × C → Result (List Bytes) × C
after acc (r, c) = continue r (λ chunks. pure (acc ++ chunks)) c

after-after {ℓ} :
    {C : Type ℓ} (acc chunks : List Bytes) (m : Result (List Bytes) × C)
    → after (acc ++ chunks) m ≡ after acc (after chunks m)
after-after acc chunks (ok later, c) = rw append_assoc
after-after acc chunks (err e, c) = refl
after-after acc chunks (hang, c) = refl

after-nil {ℓ} : {C : Type ℓ} (m : Result (List Bytes) × C) → after [] m ≡ m
after-nil (ok chunks, c) = refl
after-nil (err e, c) = refl
after-nil (hang, c) = refl

module _ (C : Chunker) where
  close-hand_on :
      (m : Result (List Bytes) × C.State) (acc : List Bytes)
      → close (continue m.0 (hand_on C push) (m.1, acc)) ≡ after acc m
  close-hand_on (ok chunks, c) acc = rw each-push
  close-hand_on (err e, c) acc = refl
  close-hand_on (hang, c) acc = refl

  close-step :
      (m : Result (List Bytes) × C.State) (reader : List ReadEvent) (acc : List Bytes)
      → ((c : C.State) (acc : List Bytes)
          → close (for_each_chunk C push reader (c, acc)) ≡ after acc (collect C reader c))
      → close (
          continue m.0 (λ chunks. hand_on C push chunks >> for_each_chunk C push reader) (m.1, acc))
        ≡ after acc
            (continue m.0 (λ chunks. collect C reader >>= λ later. pure (chunks ++ later)) m.1)
  close-step (ok chunks, c) reader acc ih =
      rw each-push (ih c (acc ++ chunks) ∙ after-after acc chunks (collect C reader c))
  close-step (err e, c) reader acc ih = refl
  close-step (hang, c) reader acc ih = refl

  close-for_each_chunk :
      (reader : List ReadEvent) (c : C.State) (acc : List Bytes)
      → close (for_each_chunk C push reader (c, acc)) ≡ after acc (collect C reader c)
  unfolding for_each_chunk collect
  close-for_each_chunk [] c acc = close-hand_on (C.finish c) acc
  close-for_each_chunk (failed e ∷ reader) c acc = refl
  close-for_each_chunk (bytes [] ∷ reader) c acc = close-hand_on (C.finish c) acc
  close-for_each_chunk (bytes (b ∷ buf) ∷ reader) c acc =
      close-step (C.feed (b ∷ buf) c) reader acc (close-for_each_chunk reader)

  -- `chunk_reader` returns all that the chunker emits, or the first error.
  pub chunk_reader-eq-collect :
      (reader : List ReadEvent) (c : C.State) → chunk_reader C reader c ≡ collect C reader c
  unfolding chunk_reader
  chunk_reader-eq-collect reader c =
      close-for_each_chunk reader c [] ∙ after-nil (collect C reader c)

-- A loop's result, without the state of the chunker.
abbrev pub visible {ℓ κ} :
    {C : Type ℓ} {S : Type κ} → Result (Unit {0}) × (C × S) → Result (Unit {0}) × S
visible (r, (c, s)) = (r, s)

module _ {ℓ} (C : Chunker) {S : Type ℓ} (f : Bytes → Exec S (Unit {0})) where
  abbrev Visits : List Bytes → Result (Unit {0}) × (C.State × S) → S → Type ℓ
  Visits chunks m s = visible m ≡ each f chunks s

  visible-hand_on :
      (chunks : List Bytes) (c : C.State) (s : S) → Visits chunks (hand_on C f chunks (c, s)) s
  visible-hand_on chunks c s = refl

  visible-then :
      (chunks later : List Bytes) (reader : List ReadEvent) (c : C.State) (s : S)
      → ((s : S) → Visits later (for_each_chunk C f reader (c, s)) s)
      → Visits (chunks ++ later) ((hand_on C f chunks >> for_each_chunk C f reader) (c, s)) s
  visible-then chunks later reader c s ih =
      split (each f chunks s).0 (each f chunks s).1 ∙ sym (each-append f chunks later s)
    where
      split :
          (r : Result (Unit {0})) (t : S)
          → visible (continue r (λ _. for_each_chunk C f reader) (c, t))
            ≡ continue r (λ _. each f later) t
      split (ok a) t = ih t
      split (err e) t = refl
      split hang t = refl

  visible-flush :
      (m : Result (List Bytes) × C.State) (chunks : List Bytes) (s : S)
      → m.0 ≡ ok chunks
      → Visits chunks (continue m.0 (hand_on C f) (m.1, s)) s
  visible-flush m chunks s e = rw e

  visible-step :
      (m : Result (List Bytes) × C.State) (reader : List ReadEvent) (chunks : List Bytes) (s : S)
      → (continue m.0 (λ early. collect C reader >>= λ later. pure (early ++ later)) m.1).0
        ≡ ok chunks
      → ((c : C.State) (later : List Bytes) (s : S)
          → (collect C reader c).0 ≡ ok later
          → Visits later (for_each_chunk C f reader (c, s)) s)
      → Visits chunks
          (continue m.0 (λ early. hand_on C f early >> for_each_chunk C f reader) (m.1, s))
          s
  visible-step (ok early, c) reader chunks s e ih =
      split (collect C reader c) e (λ later. ih c later)
    where
      split :
          (n : Result (List Bytes) × C.State)
          → (continue n.0 (λ later. pure (early ++ later)) n.1).0 ≡ ok chunks
          → ((later : List Bytes) (s : S)
              → n.0 ≡ ok later
              → Visits later (for_each_chunk C f reader (c, s)) s)
          → Visits chunks ((hand_on C f early >> for_each_chunk C f reader) (c, s)) s
      split (ok later, c') e ih =
          let same : early ++ later ≡ chunks = cc in
          rw (← same) (visible-then early later reader c s (λ t. ih later t refl))
      split (err x, c') e ih = cc
      split (hang, c') e ih = cc
  visible-step (err x, c) reader chunks s e ih = cc
  visible-step (hang, c) reader chunks s e ih = cc

  visible-for_each_chunk :
      (reader : List ReadEvent) (c : C.State) (chunks : List Bytes) (s : S)
      → (collect C reader c).0 ≡ ok chunks
      → Visits chunks (for_each_chunk C f reader (c, s)) s
  unfolding for_each_chunk collect
  visible-for_each_chunk [] c chunks s e = visible-flush (C.finish c) chunks s e
  visible-for_each_chunk (failed x ∷ reader) c chunks s e = cc
  visible-for_each_chunk (bytes [] ∷ reader) c chunks s e = visible-flush (C.finish c) chunks s e
  visible-for_each_chunk (bytes (b ∷ buf) ∷ reader) c chunks s e =
      visible-step (C.feed (b ∷ buf) c) reader chunks s e (visible-for_each_chunk reader)

-- Where `chunk_reader` returns the chunks, `for_each_chunk` hands its callback the same chunks in
-- the same order: it is the plain loop over them, errors of the callback included.
pub for_each_chunk-eq-each {ℓ} :
    (C : Chunker) {S : Type ℓ} (f : Bytes → Exec S (Unit {0})) (reader : List ReadEvent)
    (c : C.State) (chunks : List Bytes) (s : S)
    → (chunk_reader C reader c).0 ≡ ok chunks
    → visible (for_each_chunk C f reader (c, s)) ≡ each f chunks s
for_each_chunk-eq-each C f reader c chunks s e =
    visible-for_each_chunk C f reader c chunks s (rw (← chunk_reader-eq-collect C reader c) e)
