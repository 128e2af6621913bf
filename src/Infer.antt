-- ===== src/Infer.antt =====
-- What `buildInferredTripleBuffer` adds to Konclude's results by itself.
pub mod Spread
pub mod Output
pub mod Cardinality
pub mod Axioms
pub mod Memberships
