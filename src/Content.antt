-- ===== src/Content.antt =====
-- The content of a synced store: `syncBuffers` up to the comparison of digests.
pub mod Hash
pub mod Literal
pub mod Check
pub mod Digest
