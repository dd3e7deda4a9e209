-- ===== src/Collections.antt =====
-- src/data/collections/mutable: collections that are changed by operations.
pub mod GrowOnlySet
pub mod MutableSet
pub mod MutableReference
pub mod MutableArray
