-- ===== src/Wire.antt =====
-- The binary wire protocol of src/KoncludeReasoner.h: a string table and triples of encoded terms.
pub mod Table
pub mod Intern
pub mod Emit
pub mod Buffer
