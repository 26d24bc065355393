-- ===== src/Stats.antt =====
-- core/src/store/stats.rs
use chunkstore.Base.{ℕ}
use chunkstore.Base.Word.{add, saturating_sub, saturating_add}

pub record Stats : Type 0 where
  pub total_bytes : ℕ
  pub stored_bytes : ℕ
  pub gc_chunks : ℕ

abbrev pub default_stats : Stats
default_stats = record { total_bytes = 0; stored_bytes = 0; gc_chunks = 0 }

unfoldable pub add_reference : ℕ → Stats → Stats
add_reference size s = record s { total_bytes = add s.total_bytes size }

unfoldable pub add_unique_chunk : ℕ → Stats → Stats
add_unique_chunk size s = record s {
  total_bytes = add s.total_bytes size;
  stored_bytes = add s.stored_bytes size;
}

unfoldable pub remove_reference : ℕ → Stats → Stats
remove_reference size s = record s { total_bytes = saturating_sub s.total_bytes size }

unfoldable pub remove_unique_chunk : ℕ → Stats → Stats
remove_unique_chunk size s = record s {
  stored_bytes = saturating_sub s.stored_bytes size;
  gc_chunks = saturating_add s.gc_chunks 1;
}
