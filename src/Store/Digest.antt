-- ===== src/Store/Digest.antt =====
-- `is_chunk_digest` of core/src/store/fsck.rs.
use chunkstore.Base.{Bool, ◌&&◌, ◌==◌, length, all}
use chunkstore.Base.Text.{Text, is_ascii_hexdigit}

unfoldable pub is_chunk_digest : Text → Bool
is_chunk_digest name = length name == 64 && all is_ascii_hexdigit name
