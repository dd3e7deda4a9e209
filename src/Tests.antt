-- ===== src/Tests.antt =====
-- The theorems at concrete inputs.
mod Histories
mod Sets
mod Objects
mod Loading
mod Utilities
mod Backends
mod Arrays
