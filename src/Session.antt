-- ===== src/Session.antt =====
-- The life of one `KoncludeReasoner`: what it keeps between calls, and its verbs.
pub mod Kernel
pub mod State
pub mod Sync
pub mod Verbs
pub mod Invariant
pub mod Queries
pub mod Reach
