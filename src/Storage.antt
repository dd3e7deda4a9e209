-- ===== src/Storage.antt =====
-- src/storage: keeping literals and headers.
pub mod MemoryBackend
