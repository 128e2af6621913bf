-- ===== src/Scan.antt =====
-- The scans of `buildOntology` over the raw triples of src/KoncludeReasoner.cpp.
pub mod Terms
pub mod Lines
pub mod Prescan
pub mod Batch
pub mod Clashes
pub mod Functional
