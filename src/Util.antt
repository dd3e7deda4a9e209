-- ===== src/Util.antt =====
-- The containers and helpers of src/util.
pub mod Ordinals
pub mod MultiMap
pub mod ArrayMap
pub mod Queue
pub mod LruCache
pub mod Strings
pub mod DedupMultiMap
