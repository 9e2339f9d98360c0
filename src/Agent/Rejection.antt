-- ===== src/Agent/Rejection.antt =====
-- What a rejection does to the rest of a run: `approval_decision` and `_replan_reason` of
-- src/agent/nodes.py.
use durable_approval_gated_r.Prelude.{
  ℕ, ◌+◌, ◌≡◌, refl, ◌∙◌, Bool, true, false, Option, none, some, arith,
}
use durable_approval_gated_r.Act.{ok}
use durable_approval_gated_r.World.{World}
use durable_approval_gated_r.Agent.State.{
  AgentState, Update, merge, rejected, replanned, reviewer_rejected, AgentRuntimeContext, Resume,
}
use durable_approval_gated_r.Agent.Nodes
use durable_approval_gated_r.Agent.Nodes.{replan_reason}
use durable_approval_gated_r.Agent.Routes.{Node}
use durable_approval_gated_r.Agent.Graph.{updated, run_node}

-- The node that a reviewer's decision comes from.
abbrev pub takes_decision : Node → Bool
takes_decision Node.await_approval = true
takes_decision n = false

-- The states that come after a state, with no decision in between: each node in any sandbox, at any turn.
pub data Undecided (rt : AgentRuntimeContext) (s : AgentState) : AgentState → Type 0 where
  here : Undecided rt s s
  onward :
      {t v : AgentState} (n : Node) (u : Update) (turn : ℕ) (r : Option Resume) (w w' : World)
      → Undecided rt s t
      → takes_decision n ≡ false
      → run_node n rt turn r t w ≡ (ok (updated u), w')
      → v ≡ merge t u
      → Undecided rt s v

decision_stays :
    (rt : AgentRuntimeContext) (n : Node) (u : Update) (turn : ℕ) (r : Option Resume)
    (s : AgentState) (w w' : World)
    → takes_decision n ≡ false
    → run_node n rt turn r s w ≡ (ok (updated u), w')
    → (merge s u).approval_decision ≡ s.approval_decision
unfolding run_node merge Nodes.diagnose Nodes.propose_action Nodes.classify_risk
    Nodes.mark_awaiting_approval Nodes.take_decision Nodes.revalidate Nodes.prepare_execution
    Nodes.execute Nodes.verify Nodes.rolling_back Nodes.rolled_back Nodes.replan Nodes.completed
    Nodes.escalate
decision_stays rt Node.diagnose u turn r s w w' d h = ground arith
decision_stays rt Node.await_approval u turn r s w w' d h = ground arith
decision_stays rt n u turn r s w w' d h = ground arith

undecided :
    {rt : AgentRuntimeContext} {s t : AgentState}
    → Undecided rt s t
    → t.approval_decision ≡ s.approval_decision
undecided here = refl
undecided {rt = rt} (onward {t = t} n u turn r w w' before d ran e) =
    rw e (decision_stays rt n u turn r t w w' d ran ∙ undecided before)

-- Once a reviewer has rejected a proposal of a run, and until the next decision, however far the run
-- goes: every replanning from a valid proposal is told that the reviewer rejected the proposal at hand,
-- also where it is another one that was executed and failed its verification, or met a drift.
pub rejection_is_sticky :
    (rt rt' : AgentRuntimeContext) (s t : AgentState) (turn : ℕ) (w : World)
    → s.approval_decision ≡ some rejected
    → Undecided rt s t
    → t.invalid_proposal_reason ≡ none
    → Nodes.replan rt' turn t w
      ≡ (ok (replanned (t.replan_cycles + 1) (reviewer_rejected t.proposed_action)), w)
unfolding Nodes.replan replan_reason
rejection_is_sticky rt rt' s t turn w decision path valid =
    rw (valid, undecided path, decision) refl
