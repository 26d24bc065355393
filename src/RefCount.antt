-- ===== src/RefCount.antt =====
-- core/src/store/refcount.rs: a count of references and a payload size for each digest.
pub mod Laws
use chunkstore.Base.{
  ℕ, Bool, true, false, not, ◌&&◌, if◌then◌else◌, ◌==◌, Option, none, some, List, [], ◌++◌,
}
use chunkstore.Base.Text.{Text, codes, decimal}
use chunkstore.Base.Word.{add, sub}
use chunkstore.Base.Map.{Map, lookup, insert, remove}
use chunkstore.Error.{Result, ok, err, not_found, invalid_argument}
use chunkstore.Exec.{Exec}
use mathlib.Core.Option

pub record ChunkRef : Type 0 where
  pub count : ℕ
  pub size : ℕ

-- The field `counts`.
abbrev pub RefCount : Type 0
RefCount = Map ChunkRef

abbrev pub new : RefCount
new = []

unfoldable pub set : Text → ℕ → ℕ → RefCount → RefCount
set digest count size counts =
    if count == 0
    then remove digest counts
    else insert digest (record { count = count; size = size }) counts

-- `entry.count += 1`, through the reference that `entry(..).or_insert(..)` returned.
bump : Text → ChunkRef → Exec RefCount ℕ
bump digest entry counts =
    let count = add entry.count 1 in
    (ok count, insert digest (record entry { count = count }) counts)

-- `entry(digest).or_insert(ChunkRef { count: 0, size })`
abbrev or_insert : ℕ → Option ChunkRef → ChunkRef
or_insert size none = record { count = 0; size = size }
or_insert size (some entry) = entry

unfoldable pub mismatch : Text → ℕ → ℕ → Text
mismatch digest stored size =
    codes "chunk size mismatch for "
    ++ (digest ++ (codes ": stored " ++ (decimal stored ++ (codes " got " ++ decimal size))))

unfoldable pub increment : Text → ℕ → Exec RefCount ℕ
unfolding bump mismatch
increment digest size counts =
    let entry = or_insert size (lookup digest counts) in
    if entry.size == 0
    then bump digest (record entry { size = size }) counts
    else if not (size == 0) && not (entry.size == size)
    then (err (invalid_argument (mismatch digest entry.size size)), insert digest entry counts)
    else bump digest entry counts

abbrev decrement_entry : Text → ChunkRef → Exec RefCount ℕ
decrement_entry digest entry counts =
    let remaining = sub entry.count 1 in
    (
      ok remaining,
      if remaining == 0
          then remove digest counts
          else insert digest (record entry { count = remaining }) counts,
    )

unfoldable pub decrement : Text → Exec RefCount ℕ
decrement digest counts = elim (lookup digest counts) [
  | none ↦ (err (not_found (codes "refcount " ++ digest)), counts)
  | some entry ↦ decrement_entry digest entry counts
]

unfoldable pub get : Text → RefCount → Option ℕ
get digest counts = Option.map (λ (r : ChunkRef). r.count) (lookup digest counts)

unfoldable pub size_of : Text → RefCount → Option ℕ
size_of digest counts = Option.map (λ (r : ChunkRef). r.size) (lookup digest counts)

abbrev pub get_ref : Text → RefCount → Option ChunkRef
get_ref digest counts = lookup digest counts

-- `iter_refs`; `iter` is its projection to the digests and counts.
abbrev pub iter_refs : RefCount → List (Text × ChunkRef)
iter_refs counts = counts
