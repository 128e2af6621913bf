-- ===== src/Examples.antt =====
-- The theorems at concrete inputs, and tests of the definitions.
pub mod Wires
pub mod Contents
pub mod Scans
pub mod Sessions
pub mod Watches
pub mod Prescans
pub mod Batches
pub mod Spreads
pub mod Cardinalities
pub mod Axioms
pub mod Memberships
