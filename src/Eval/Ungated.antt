-- ===== src/Eval/Ungated.antt =====
-- A run of src/agent/graph.py before its first suspension: a tier above low is only on its way to one.
use durable_approval_gated_r.Prelude.{◌≡◌, Bool, false, Option, none, some, arith}
use durable_approval_gated_r.Agent.State.{AgentRuntimeContext, Resume, merge}
use durable_approval_gated_r.Agent.Nodes
use durable_approval_gated_r.Agent.Routes.{Node, goto, end, next_node}
use durable_approval_gated_r.Agent.Graph.{
  Config, Stop, finished, waiting, failed, out_of_fuel, moved, step, run_node, enough_fuel,
  start_workflow,
}
use durable_approval_gated_r.Agent.Rule.{run_rule}
use durable_approval_gated_r.Eval.Metrics.{is_gated}

-- Before its first suspension a run has a tier above low only on its way to the suspension.
abbrev Ungated : Node → Option Resume → Config → Type 0
Ungated Node.mark_awaiting_approval r c = Unit
Ungated Node.await_approval none c = Unit
Ungated Node.await_approval (some d) c = ⊥
Ungated n r c = is_gated c.state.risk_tier_final ≡ false

Ungated-moves :
    (reval : Bool) (rt : AgentRuntimeContext) (n m : Node) (r : Option Resume) (c c' : Config)
    → Ungated n r c
    → step reval rt n r c ≡ moved (goto m) c'
    → Ungated m none c'
unfolding step run_node next_node merge Nodes.diagnose Nodes.propose_action Nodes.classify_risk
    Nodes.mark_awaiting_approval Nodes.take_decision Nodes.revalidate Nodes.prepare_execution
    Nodes.execute Nodes.verify Nodes.rolling_back Nodes.rolled_back Nodes.replan Nodes.completed
    Nodes.escalate
Ungated-moves reval rt Node.diagnose m r c c' u h = ground arith
Ungated-moves reval rt Node.await_approval m none c c' u h = ground arith
Ungated-moves reval rt Node.await_approval m (some d) c c' u h = absurd u
Ungated-moves reval rt _ m r c c' u h = ground arith

-- A run that ends without a suspension has no tier above low.
abbrev pub EndsUngated : Stop × Config → Type 0
EndsUngated (finished, c) = is_gated c.state.risk_tier_final ≡ false
EndsUngated (waiting q, c) = Unit
EndsUngated (failed n e, c) = Unit
EndsUngated (out_of_fuel n, c) = Unit

Ungated-ends :
    (reval : Bool) (rt : AgentRuntimeContext) (n : Node) (r : Option Resume) (c c' : Config)
    → Ungated n r c
    → step reval rt n r c ≡ moved end c'
    → EndsUngated (finished, c')
unfolding step run_node next_node merge Nodes.diagnose Nodes.propose_action Nodes.classify_risk
    Nodes.mark_awaiting_approval Nodes.take_decision Nodes.revalidate Nodes.prepare_execution
    Nodes.execute Nodes.verify Nodes.rolling_back Nodes.rolled_back Nodes.replan Nodes.completed
    Nodes.escalate
Ungated-ends reval rt Node.diagnose r c c' u h = ground arith
Ungated-ends reval rt Node.await_approval none c c' u h = ground arith
Ungated-ends reval rt Node.await_approval (some d) c c' u h = absurd u
Ungated-ends reval rt _ r c c' u h = ground arith

pub start-EndsUngated :
    (reval : Bool) (rt : AgentRuntimeContext) (c : Config)
    → is_gated c.state.risk_tier_final ≡ false
    → EndsUngated (start_workflow reval rt c)
unfolding start_workflow
start-EndsUngated reval rt c u =
    run_rule reval rt Ungated EndsUngated
      (record {
        moves = Ungated-moves reval rt;
        ends = Ungated-ends reval rt;
        suspends = λ n r c c' q i e. tt;
        crashes = λ n r c c' x i e. tt;
        stops = λ n r c i. tt;
      })
      enough_fuel Node.diagnose none c u
