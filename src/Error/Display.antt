-- ===== src/Error/Display.antt =====
-- core/src/error.rs: how an error prints.
use chunkstore.Base.{◌++◌}
use chunkstore.Base.Text.{Text, codes}
use chunkstore.Error.{
  ChunkStoreError, backend_error, digest_mismatch, not_found, invalid_argument, lock_error,
  io_error,
}

unfoldable pub to_string : ChunkStoreError → Text
to_string (backend_error m) = codes "backend error: " ++ m
to_string (digest_mismatch expected actual) =
    codes "digest mismatch: expected " ++ (expected ++ (codes ", got " ++ actual))
to_string (not_found m) = codes "not found: " ++ m
to_string (invalid_argument m) = codes "invalid argument: " ++ m
to_string lock_error = codes "lock poisoned"
to_string (io_error m) = codes "io error: " ++ m
