-- ===== src/Agent/Effects.antt =====
-- Which nodes change the sandbox, and on which grounds.
use durable_approval_gated_r.Prelude.{
  ℕ, ◌≡◌, ◌≢◌, refl, ◌∙◌, ◌⊎◌, inl, inr, Bool, Option, none, some,
}
use durable_approval_gated_r.Act.{Result, ok, raised, Act}
use durable_approval_gated_r.World.{World}
use durable_approval_gated_r.Tools.Unchanged.{
  Keeps, keeps_rules, Keeps-gather_observations, Keeps-verify_action,
}
use durable_approval_gated_r.Agent.State.{AgentState, Update, AgentRuntimeContext, Resume}
use durable_approval_gated_r.Agent.Nodes
use durable_approval_gated_r.Agent.Routes.{Node}
use durable_approval_gated_r.Agent.Graph.{Interrupt, as_updated, ask, interrupt_value, run_node}
use durable_approval_gated_r.Agent.Gate.{Clearance, Reach, IsCleared, execute-IsCleared}

ruleset node_rules = (keeps_rules, Keeps-gather_observations, Keeps-verify_action)

as_updated-world : (x : Result Update × World) → (as_updated x).1 ≡ x.1
as_updated-world (ok u, w) = refl
as_updated-world (raised e, w) = refl

module _ (rt : AgentRuntimeContext) (turn : ℕ) (s : AgentState) where
  updated-world : (m : Act World Update) (w : World) → Keeps m → (as_updated (m w)).1 ≡ w
  updated-world m w k = as_updated-world (m w) ∙ k.at w

  Keeps-take_decision : (r : Resume) → Keeps (Nodes.take_decision rt turn s r)
  unfolding Nodes.take_decision
  Keeps-take_decision r = search node_rules

  ask-world : (r : Option Resume) (q : Result Interrupt) (w : World) → (ask rt turn s r q w).1 ≡ w
  ask-world none (ok q) w = refl
  ask-world (some d) (ok q) w =
      updated-world (Nodes.take_decision rt turn s d) w (Keeps-take_decision d)
  ask-world r (raised e) w = refl

  Keeps-diagnose : Keeps (Nodes.diagnose rt turn s)
  unfolding Nodes.diagnose
  Keeps-diagnose = search node_rules

  Keeps-propose_action : Keeps (Nodes.propose_action rt turn s)
  unfolding Nodes.propose_action
  Keeps-propose_action = search node_rules depth 16

  Keeps-classify_risk : Keeps (Nodes.classify_risk rt turn s)
  unfolding Nodes.classify_risk
  Keeps-classify_risk = search node_rules depth 16

  Keeps-revalidate : Keeps (Nodes.revalidate rt turn s)
  unfolding Nodes.revalidate
  Keeps-revalidate = search node_rules

  Keeps-prepare_execution : Keeps (Nodes.prepare_execution rt turn s)
  unfolding Nodes.prepare_execution
  Keeps-prepare_execution = search node_rules

  Keeps-verify : Keeps (Nodes.verify rt turn s)
  unfolding Nodes.verify
  Keeps-verify = search node_rules

  -- A node other than `execute` and `rolling_back` leaves the sandbox as it is.
  run_node-world :
      (n : Node) (r : Option Resume) (w : World)
      → n ≢ Node.execute
      → n ≢ Node.rolling_back
      → (run_node n rt turn r s w).1 ≡ w
  unfolding run_node Nodes.mark_awaiting_approval Nodes.rolled_back Nodes.replan Nodes.completed
      Nodes.escalate
  run_node-world Node.diagnose r w a b = updated-world (Nodes.diagnose rt turn s) w Keeps-diagnose
  run_node-world Node.propose_action r w a b =
      updated-world (Nodes.propose_action rt turn s) w Keeps-propose_action
  run_node-world Node.classify_risk r w a b =
      updated-world (Nodes.classify_risk rt turn s) w Keeps-classify_risk
  run_node-world Node.revalidate r w a b =
      updated-world (Nodes.revalidate rt turn s) w Keeps-revalidate
  run_node-world Node.prepare_execution r w a b =
      updated-world (Nodes.prepare_execution rt turn s) w Keeps-prepare_execution
  run_node-world Node.verify r w a b = updated-world (Nodes.verify rt turn s) w Keeps-verify
  run_node-world Node.await_approval r w a b = ask-world r (interrupt_value s) w
  run_node-world Node.execute r w a b = absurd (a refl)
  run_node-world Node.rolling_back r w a b = absurd (b refl)
  run_node-world _ r w a b = refl

-- Where a node changes the sandbox, in any state that a run reaches, in any sandbox and at any turn,
-- it is `execute`, and the proposal is cleared: its final tier is low and it is no deletion of records
-- and no rollback of a deployment, or a human approved or edited it and, in the graph with
-- revalidation, a check found no drift since. Or it is `rolling_back`.
pub only_execute_changes :
    {reval : Bool} {rt : AgentRuntimeContext} {n : Node} {s : AgentState} {k : Clearance}
    → Reach reval rt n s k
    → (turn : ℕ) (r : Option Resume) (w : World) → (run_node n rt turn r s w).1 ≢ w
    → ((n ≡ Node.execute) × IsCleared reval s k) ⊎ (n ≡ Node.rolling_back)
only_execute_changes {n = Node.execute} reached turn r w changed =
    inl (refl, execute-IsCleared reached)
only_execute_changes {n = Node.rolling_back} reached turn r w changed = inr refl
only_execute_changes {rt = rt} {s = s} reached turn r w changed =
    absurd (changed (run_node-world rt turn s _ r w (λ e. cc) (λ e. cc)))
