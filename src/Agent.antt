-- ===== src/Agent.antt =====
-- src/agent: the state of a run, the nodes of its graph, the graph, and what holds of every run.
pub mod State
pub mod Nodes
pub mod Routes
pub mod Graph
pub mod Bound
pub mod Termination
pub mod Rule
pub mod Gate
pub mod Keys
pub mod Effects
pub mod Attempts
pub mod Flag
pub mod Rejection
