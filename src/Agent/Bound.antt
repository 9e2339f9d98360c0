-- ===== src/Agent/Bound.antt =====
-- How many super-steps an invocation of the graph takes.
use durable_approval_gated_r.Prelude.{
  ℕ, ◌+◌, ◌-◌, ◌*◌, ◌<◌, max, ◌≡◌, Bool, true, false, Option, none, some, arith,
}
use durable_approval_gated_r.Agent.State.{max_replan_cycles, AgentRuntimeContext, Resume, merge}
use durable_approval_gated_r.Agent.Nodes
use durable_approval_gated_r.Agent.Routes.{Node, goto, next_node}
use durable_approval_gated_r.Agent.Graph.{Config, moved, step, run_node}

-- The replanning cycles that are left, at least one.
abbrev pub cycles_left : Config → ℕ
cycles_left c = max 1 (max_replan_cycles - c.state.replan_cycles)

-- The super-steps that an invocation can still take from a node.
abbrev pub steps_left : Node → Option Resume → ℕ → ℕ
steps_left Node.diagnose r k = 8 * k + 2
steps_left Node.propose_action r k = 8 * k + 1
steps_left Node.classify_risk r k = 8 * k
steps_left Node.mark_awaiting_approval r k = 2
steps_left Node.await_approval none k = 1
steps_left Node.await_approval (some d) k = 8 * k + 1
steps_left Node.revalidate r k = 8 * k
steps_left Node.prepare_execution r k = 8 * k - 1
steps_left Node.execute r k = 8 * k - 2
steps_left Node.verify r k = 8 * k - 3
steps_left Node.rolling_back r k = 8 * k - 4
steps_left Node.rolled_back r k = 8 * k - 5
steps_left Node.replan r k = 8 * k - 6
steps_left Node.escalate r k = 1
steps_left Node.completed r k = 1

-- Every super-step that leads to another node leaves fewer of them.
pub step_falls :
    (reval : Bool) (rt : AgentRuntimeContext) (n : Node) (r : Option Resume) (c : Config) {m : Node}
    {c' : Config}
    → step reval rt n r c ≡ moved (goto m) c'
    → steps_left m none (cycles_left c') < steps_left n r (cycles_left c)
unfolding step run_node next_node merge Nodes.diagnose Nodes.propose_action Nodes.classify_risk
    Nodes.mark_awaiting_approval Nodes.take_decision Nodes.revalidate Nodes.prepare_execution
    Nodes.execute Nodes.verify Nodes.rolling_back Nodes.rolled_back Nodes.replan Nodes.completed
    Nodes.escalate
step_falls reval rt Node.diagnose r c h = ground arith
step_falls reval rt Node.await_approval none c h = ground arith
step_falls true rt Node.await_approval (some d) c h = ground arith
step_falls false rt Node.await_approval (some d) c h = ground arith
step_falls reval rt _ r c h = ground arith
