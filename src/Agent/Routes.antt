-- ===== src/Agent/Routes.antt =====
-- The nodes' names, the conditional routes of src/agent/nodes.py, and the edges of src/agent/graph.py.
use durable_approval_gated_r.Prelude.{Bool, true, false, leb, if◌then◌else◌, is_some}
use durable_approval_gated_r.Act.{Result, ok, required, map_result}
use durable_approval_gated_r.Policy.{is_low}
use durable_approval_gated_r.Agent.State.{
  max_replan_cycles, ApprovalDecision, approved, edited, rejected, timeout, AgentState,
}

-- The keys of `NODES`.
pub data Node : Type 0 where
  diagnose propose_action classify_risk mark_awaiting_approval await_approval revalidate : Node
  prepare_execution execute verify rolling_back rolled_back replan escalate completed : Node

-- Where an edge leads: a node, or `END`.
pub data Next : Type 0 where
  goto : Node → Next
  end : Next

unfoldable pub route_after_proposal : AgentState → Result Next
route_after_proposal s =
    ok (goto (if is_some s.invalid_proposal_reason then replan else classify_risk))

unfoldable pub route_after_risk_classification : AgentState → Result Next
route_after_risk_classification s =
    map_result (λ tier. goto (if is_low tier then prepare_execution else mark_awaiting_approval))
      (required "risk_tier_final" s.risk_tier_final)

abbrev by_decision : Node → ApprovalDecision → Next
by_decision next approved = goto next
by_decision next edited = goto next
by_decision next rejected = goto replan
by_decision next timeout = goto escalate

unfoldable pub route_after_approval : AgentState → Result Next
route_after_approval s =
    map_result (by_decision revalidate) (required "approval_decision" s.approval_decision)

-- The ablation without revalidation.
unfoldable route_after_approval_no_revalidation : AgentState → Result Next
route_after_approval_no_revalidation s =
    map_result (by_decision prepare_execution) (required "approval_decision" s.approval_decision)

unfoldable pub route_after_revalidation : AgentState → Result Next
route_after_revalidation s =
    map_result (λ drift. goto (if drift then replan else prepare_execution))
      (required "drift_detected" s.drift_detected)

unfoldable route_after_verification : AgentState → Result Next
route_after_verification s =
    map_result (λ passed. goto (if passed then completed else rolling_back))
      (required "verification_passed" s.verification_passed)

unfoldable pub route_after_replan : AgentState → Result Next
route_after_replan s =
    ok (goto (if leb max_replan_cycles s.replan_cycles then escalate else propose_action))

-- The edges that `build_graph(checkpointer, revalidate=reval)` adds. Without revalidation the node
-- `revalidate` is not in the graph, and no edge leads to it.
unfoldable pub next_node : Bool → Node → AgentState → Result Next
unfolding route_after_proposal route_after_risk_classification route_after_approval
    route_after_approval_no_revalidation route_after_revalidation route_after_verification
    route_after_replan
next_node reval diagnose s = ok (goto propose_action)
next_node reval propose_action s = route_after_proposal s
next_node reval classify_risk s = route_after_risk_classification s
next_node reval mark_awaiting_approval s = ok (goto await_approval)
next_node true await_approval s = route_after_approval s
next_node false await_approval s = route_after_approval_no_revalidation s
next_node reval revalidate s = route_after_revalidation s
next_node reval prepare_execution s = ok (goto execute)
next_node reval execute s = ok (goto verify)
next_node reval verify s = route_after_verification s
next_node reval rolling_back s = ok (goto rolled_back)
next_node reval rolled_back s = ok (goto replan)
next_node reval replan s = route_after_replan s
next_node reval completed s = ok end
next_node reval escalate s = ok end
