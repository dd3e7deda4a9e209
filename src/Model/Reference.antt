-- ===== src/Model/Reference.antt =====
-- src/data/model/immutable/HashReference.ts: the hash of an object, with its class.
use hyperhyperspace_core.Prelude.{Hash, String}

pub record HashReference : Type 0 where
  pub hash : Hash
  pub class_name : String
