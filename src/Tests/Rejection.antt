-- ===== src/Tests/Rejection.antt =====
-- A rejection that a run goes on from, at a concrete input.
use durable_approval_gated_r.Prelude.{◌≡◌, refl, ◌+◌, none, some, []}
use durable_approval_gated_r.Act.{ok}
use durable_approval_gated_r.Action.{join_action}
use durable_approval_gated_r.World.{World}
use durable_approval_gated_r.Policy.{low}
use durable_approval_gated_r.Agent.State.{
  AgentState, merge, initial_state, rejected, prepared, replanned, reviewer_rejected,
  AgentRuntimeContext,
}
use durable_approval_gated_r.Agent.Nodes
use durable_approval_gated_r.Agent.Routes.{Node}
use durable_approval_gated_r.Agent.Graph.{run_node}
use durable_approval_gated_r.Agent.Rejection.{Undecided, here, onward, rejection_is_sticky}
use durable_approval_gated_r.Eval.Sandbox.{build_sandbox, scripted_context}

abbrev context : AgentRuntimeContext
context = scripted_context "restart_service" "service_a" low (λ fields. "digest") (λ turn. turn)

abbrev world : World
world = build_sandbox []

abbrev rejected_once : AgentState
rejected_once = record (initial_state "run") {
  proposed_action = some "restart_service:service_a";
  approval_decision = some rejected;
}

-- The next action is prepared.
abbrev prepared_next : AgentState
prepared_next = merge rejected_once (prepared "run:restart_service:service_a")

goes_on : Undecided context rejected_once prepared_next
unfolding run_node Nodes.prepare_execution Nodes.idempotency_key join_action initial_state
goes_on =
    onward Node.prepare_execution (prepared "run:restart_service:service_a") 4 none world world here
      refl refl refl

is_valid : prepared_next.invalid_proposal_reason ≡ none
unfolding merge initial_state
is_valid = refl

rejection_is_sticky_example : Nodes.replan context 5 prepared_next world ≡ (
  ok (
      replanned
        (prepared_next.replan_cycles + 1)
        (reviewer_rejected prepared_next.proposed_action)),
  world,
)
unfolding initial_state
rejection_is_sticky_example =
    rejection_is_sticky context context rejected_once prepared_next 5 world refl goes_on is_valid
