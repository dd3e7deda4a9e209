-- ===== src/Js.antt =====
-- The collections of the language's runtime.
pub mod Map
pub mod Set
