-- ===== src/RefCount/Laws.antt =====
-- What core/src/store/refcount.rs does on every branch, and that giving a reference back undoes
-- taking it.
use chunkstore.Base.{
  ℕ, ◌+◌, ◌-◌, ◌<◌, ◌≡◌, ◌≢◌, refl, ◌==◌, if◌then◌else◌, Option, none, some, ◌++◌, arith, ◌⊎◌,
}
use chunkstore.Base.Text.{Text, codes}
use chunkstore.Base.Word.{add, word_size, add_lem, sub_lem}
use chunkstore.Base.Map.{Map, lookup, insert, remove, lookup-insert, lookup-remove}
use chunkstore.Error.{ok, err, not_found, invalid_argument}
use chunkstore.RefCount.{RefCount, ChunkRef, increment, decrement, mismatch}

abbrev pub count_of : Option ChunkRef → ℕ
count_of none = 0
count_of (some r) = r.count

-- A size that a new reference may have: any for a new digest or one of unknown size, else the
-- size on record.
abbrev pub SizeAgrees : ℕ → Option ChunkRef → Type 0
SizeAgrees size none = Unit
SizeAgrees size (some r) = r.size ≡ size

abbrev pub one_more : ℕ → Option ChunkRef → ChunkRef
one_more size o = record { count = add (count_of o) 1; size = size }

increment_at :
    (o : Option ChunkRef) (d : Text) (size : ℕ) (counts : RefCount)
    → lookup d counts ≡ o
    → SizeAgrees size o
    → increment d size counts ≡ (ok (add (count_of o) 1), insert d (one_more size o) counts)
unfolding increment
increment_at none d size counts e h = rw e (ground arith)
increment_at (some r) d size counts e h = rw e (ground arith)

-- One more reference of an agreeing size: the count grows by one, and the size is on record.
pub increment_lem :
    (d : Text) (size : ℕ) (counts : RefCount)
    → SizeAgrees size (lookup d counts)
    → increment d size counts
      ≡ (ok (add (count_of (lookup d counts)) 1), insert d (one_more size (lookup d counts)) counts)
increment_lem d size counts h = increment_at (lookup d counts) d size counts refl h

-- A known size other than the one on record is refused, and no lookup changes.
pub increment-mismatch :
    (d e : Text) (size : ℕ) (counts : RefCount) (r : ChunkRef)
    → lookup d counts ≡ some r
    → r.size ≢ 0
    → size ≢ 0
    → r.size ≢ size
    → ((increment d size counts).0 ≡ err (invalid_argument (mismatch d r.size size)))
      × (lookup e (increment d size counts).1 ≡ lookup e counts)
unfolding increment
increment-mismatch d e size counts r found p q ne =
    rw found (ground (arith, lookup-insert e d r counts))

-- One reference less: the entry goes when it was the last.
pub decrement_lem :
    (d : Text) (r : ChunkRef) (counts : RefCount)
    → lookup d counts ≡ some r
    → 0 < r.count
    → r.count < word_size
    → decrement d counts ≡ (
      ok (r.count - 1),
      if r.count - 1 == 0
          then remove d counts
          else insert d (record { count = r.count - 1; size = r.size }) counts,
    )
unfolding decrement
decrement_lem d r counts found p w = rw (found, decrement, sub_lem r.count 1 p w)

-- No digest that is not counted can lose a reference.
pub decrement_missing :
    (d : Text) (counts : RefCount)
    → lookup d counts ≡ none
    → decrement d counts ≡ (err (not_found (codes "refcount " ++ d)), counts)
unfolding decrement
decrement_missing d counts e = rw (e, decrement)

pub lookup-insert_self :
    {V : Type 0} (d : Text) (v : V) (counts : Map V) → lookup d (insert d v counts) ≡ some v
lookup-insert_self d v counts = rw lookup-insert (ground arith)

-- Taking a reference of an agreeing size, where the count is not full, and giving it back leaves
-- every count and every size as it was, whether the digest was counted before or not.
pub decrement-increment :
    (d e : Text) (size : ℕ) (counts : RefCount)
    → SizeAgrees size (lookup d counts)
    → count_of (lookup d counts) + 1 < word_size
    → (count_of (lookup d counts) ≢ 0) ⊎ (lookup d counts ≡ none)
    → lookup e (decrement d (increment d size counts).1).1 ≡ lookup e counts
decrement-increment d e size counts h w known =
    let more = one_more size (lookup d counts) in
    let more_count : more.count ≡ count_of (lookup d counts) + 1 = add_lem _ 1 w in
    rw
      (
        increment_lem d size counts h,
        decrement_lem d more (insert d more counts) (lookup-insert_self d more counts)
            (omega (arith, more_count)) (omega (arith, more_count)),
      )
      (ground (
        arith,
        more_count,
        lookup-insert e d more counts,
        lookup-remove e d (insert d more counts),
        lookup-insert e d (record { count = more.count - 1; size = size }) (insert d more counts),
      ))
