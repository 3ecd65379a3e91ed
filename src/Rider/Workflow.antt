-- ===== src/Rider/Workflow.antt =====
-- The requests of a rider as one type, and runs of them.
pub mod Request
pub mod Writes
pub mod Invariant
pub mod Manned
