-- ===== src/Eval.antt =====
-- The evaluation and chaos tools: src/eval and src/chaos, src/env/fault_injector.py.
pub mod Sandbox
pub mod Faults
pub mod Validation
pub mod Injectable
pub mod Changes
pub mod Staleness
pub mod Accepted
pub mod Reset
pub mod Metrics
pub mod Confusion
pub mod Rates
pub mod Proposable
pub mod Scenario
pub mod Approvals
pub mod Ungated
pub mod Compliance
pub mod RunSuite
pub mod ResultFiles
pub mod Resumption
pub mod AllFiles
pub mod GateRate
pub mod Summary
pub mod Sound
pub mod LoadTest
