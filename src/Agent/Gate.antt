-- ===== src/Agent/Gate.antt =====
-- The approval gate of src/agent/graph.py: on which grounds a run may come to `execute`.
use durable_approval_gated_r.Prelude.{
  ℕ, String, ◌≡◌, ◌⊎◌, ◌||◌, str_eq, Bool, true, false, Option, none, some, arith, if◌then◌else◌,
}
use durable_approval_gated_r.Act.{Result, ok, raised}
use durable_approval_gated_r.Action.{split_action}
use durable_approval_gated_r.World.{World}
use durable_approval_gated_r.Policy.{low, is_low, apply_policy}
use durable_approval_gated_r.Agent.State.{
  ApprovalDecision, approved, edited, rejected, timeout, AgentState, Update, proposed, classified,
  decided, revalidated, AgentRuntimeContext, Resume, merge,
}
use durable_approval_gated_r.Agent.Nodes
use durable_approval_gated_r.Agent.Routes.{Node, goto, next_node}
use durable_approval_gated_r.Agent.Graph.{updated, run_node}

-- On which grounds the proposal at hand may be executed.
pub data Clearance : Type 0 where
  unclear autonomous approved_by_human still_valid : Clearance

abbrev by_human : ApprovalDecision → Clearance
by_human approved = approved_by_human
by_human edited = approved_by_human
by_human rejected = unclear
by_human timeout = unclear

abbrev after_check : Clearance → Bool → Clearance
after_check approved_by_human false = still_valid
after_check k drift = unclear

-- A monitor that sees the updates alone: a new proposal has no clearance, and gets it from a low final
-- tier, or from a decision that a check without drift then confirms.
abbrev pub observe : Clearance → Update → Clearance
observe k (proposed a p r f i) = unclear
observe k (classified llm final r b) = if is_low final then autonomous else unclear
observe k (decided decision approver change) = by_human decision
observe k (revalidated o f drift) = after_check k drift
observe k u = k

-- The states that a run can reach with the monitor's clearance: from any initial state, each node in
-- any sandbox and at any turn, and each suspension with any decision.
pub data Reach (reval : Bool) (rt : AgentRuntimeContext)
    : Node → AgentState → Clearance → Type 0 where
  begin : (s : AgentState) → Reach reval rt Node.diagnose s unclear
  next :
      {n m : Node} {s t : AgentState} {k l : Clearance} (u : Update) (turn : ℕ) (r : Option Resume)
      (w w' : World)
      → Reach reval rt n s k
      → run_node n rt turn r s w ≡ (ok (updated u), w')
      → t ≡ merge s u
      → l ≡ observe k u
      → next_node reval n t ≡ ok (goto m)
      → Reach reval rt m t l

abbrev forced_tool : Result (String × String) → Bool
forced_tool (ok (tool, target)) = str_eq tool "delete_records" || str_eq tool "rollback_deployment"
forced_tool (raised e) = false

-- The action is a deletion of records or a rollback of a deployment.
abbrev pub is_forced : Option String → Bool
is_forced none = false
is_forced (some action) = forced_tool (split_action action)

-- The clearance that a human's approval has where the graph comes to execute.
abbrev pub human_clearance : Bool → Clearance
human_clearance true = still_valid
human_clearance false = approved_by_human

-- The agent may act alone on a low final tier, never on a forced action; or a human has approved.
abbrev pub IsCleared : Bool → AgentState → Clearance → Type 0
IsCleared reval s k =
    ((k ≡ autonomous) × (s.risk_tier_final ≡ some low) × (is_forced s.proposed_action ≡ false))
    ⊎ (k ≡ human_clearance reval)

abbrev Inv : Bool → Node → AgentState → Clearance → Type 0
Inv reval Node.prepare_execution s k = IsCleared reval s k
Inv reval Node.execute s k = IsCleared reval s k
Inv true Node.revalidate s k = k ≡ approved_by_human
Inv false Node.revalidate s k = ⊥
Inv reval n s k = Unit

step-Inv :
    (reval : Bool) (rt : AgentRuntimeContext) (n : Node) {m : Node} (s : AgentState) (k : Clearance)
    (u : Update) (turn : ℕ) (r : Option Resume) (w w' : World)
    → Inv reval n s k
    → run_node n rt turn r s w ≡ (ok (updated u), w')
    → next_node reval n (merge s u) ≡ ok (goto m)
    → Inv reval m (merge s u) (observe k u)
unfolding run_node next_node merge apply_policy Nodes.diagnose Nodes.propose_action
    Nodes.classify_risk Nodes.mark_awaiting_approval Nodes.take_decision Nodes.revalidate
    Nodes.prepare_execution Nodes.execute Nodes.verify Nodes.rolling_back Nodes.rolled_back
    Nodes.replan Nodes.completed Nodes.escalate
step-Inv reval rt Node.diagnose s k u turn r w w' i h e = ground arith
step-Inv reval rt Node.classify_risk s k u turn r w w' i h e = ground arith
step-Inv true rt Node.await_approval s k u turn none w w' i h e = ground arith
step-Inv true rt Node.await_approval s k u turn (some d) w w' i h e = ground arith
step-Inv false rt Node.await_approval s k u turn none w w' i h e = ground arith
step-Inv false rt Node.await_approval s k u turn (some d) w w' i h e = ground arith
step-Inv true rt Node.revalidate s k u turn r w w' i h e = ground arith
step-Inv false rt Node.revalidate s k u turn r w w' i h e = absurd i
step-Inv reval rt _ s k u turn r w w' i h e = ground arith

Reach-Inv :
    {reval : Bool} {rt : AgentRuntimeContext} {n : Node} {s : AgentState} {k : Clearance}
    → Reach reval rt n s k
    → Inv reval n s k
Reach-Inv (begin s) = tt
Reach-Inv (next {n = n} {s = s} {k = k} u turn r w w' before ran st kl edge) =
    rw (st, kl) (step-Inv _ _ n s k u turn r w w' (Reach-Inv before) ran (rw st at edge))

-- Whatever the models answer, whatever is decided, and however the sandbox changes in between: where
-- the graph comes to `execute`, a low final tier has cleared this proposal, and its action is not a
-- deletion of records or a rollback; or a human approved or edited this proposal and, in the graph with
-- revalidation, a check found no drift since.
pub execute-IsCleared :
    {reval : Bool} {rt : AgentRuntimeContext} {s : AgentState} {k : Clearance}
    → Reach reval rt Node.execute s k
    → IsCleared reval s k
execute-IsCleared reached = Reach-Inv reached
