-- ===== src/Tools.antt =====
-- src/tools: the read-only tools, the mutating tools, and what the mutating ones promise.
pub mod Readonly
pub mod Mutating
pub mod Unchanged
pub mod Idempotent
pub mod Once
