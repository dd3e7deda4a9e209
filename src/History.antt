-- ===== src/History.antt =====
-- src/data/history: the headers of operations, the fragments of a history, the walks
-- over them, and the delta between two states.
pub mod Header
pub mod Fragment
pub mod Walk
pub mod Queries
pub mod CausalClosure
pub mod Outside
pub mod Delta
pub mod Loading
