-- ===== src/Audit.antt =====
-- src/audit: the record of a transition, the store, and the replay of a run from its records.
pub mod Hook
pub mod Replay
pub mod Chain
pub mod Complete
