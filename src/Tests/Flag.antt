-- ===== src/Tests/Flag.antt =====
-- The flag of the redundancy floor at a concrete input.
use durable_approval_gated_r.Prelude.{false, some, none, [], ◌∷◌}
use durable_approval_gated_r.World.{World}
use durable_approval_gated_r.Observations.{ServiceObs, Observations}
use durable_approval_gated_r.Policy.{low, Situational}
use durable_approval_gated_r.Agent.State.{AgentState, AgentRuntimeContext, initial_state}
use durable_approval_gated_r.Agent.Nodes
use durable_approval_gated_r.Eval.Sandbox.{build_sandbox, scripted_context}
use durable_approval_gated_r.Tests.Services.{seen}

-- A service whose only instance has been restarted.
abbrev restarted : ServiceObs
restarted = record (seen "service_a" 0) {
  metrics = record (seen "service_a" 0).metrics { restart_count = 1 };
}

abbrev observations : Observations
observations = record { services = ("service_a", restarted) ∷ []; records = [] }

abbrev thrashing : Situational
thrashing = record {
  replicas = 1;
  restart_count_this_run = 1;
  error_rate = 0;
  memory_pct = 20;
  cpu_pct = 15;
  disk_pct = none;
  has_redundant_replica = false;
}

abbrev state : AgentState
state = record (initial_state "run") {
  proposed_action = some "restart_service:service_a";
  observations = some observations;
  diagnosis = some "memory leak";
}

abbrev context : AgentRuntimeContext
context = scripted_context "restart_service" "service_a" low (λ fields. "digest") (λ turn. turn)

abbrev world : World
world = build_sandbox []
