-- ===== src/Tests.antt =====
-- The theorems at concrete inputs: a sandbox as `build_sandbox` of src/eval/runner.py makes it, with the
-- scripted reasoner and classifier of src/chaos/agent_process.py.
mod Runs
mod Keys
mod Flag
mod Rejection
mod Load
mod Parts
mod Services
mod Interface
mod Suite
mod Scenarios
mod Records
mod Registry
mod Models
