-- ===== src/Model.antt =====
-- src/data/model: hashed collections and references.
pub mod HashedSet
pub mod HashedMap
pub mod Reference
pub mod Operation
pub mod MutableObject
