-- ===== src/Justifications.antt =====
-- Justifications of inferred triples.
pub mod Cache
