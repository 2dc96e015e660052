-- ===== src/Query.antt =====
-- components/query: the set operations of sets.h, the tree of ast.h and ast.cc, and the driver of
-- driver.cc. Eval and Keys hold the proofs on trees.
pub mod Sets
pub mod Ast
pub mod Eval
pub mod Keys
pub mod Driver
