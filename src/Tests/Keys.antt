-- ===== src/Tests/Keys.antt =====
-- The keys that a deletion's run has, the question on which it waits, and a step that raises.
use durable_approval_gated_r.Prelude.{◌≡◌, refl, true, none, some}
use durable_approval_gated_r.Act.{raised, missing_key}
use durable_approval_gated_r.Agent.Nodes
use durable_approval_gated_r.Agent.State.{initial_state}
use durable_approval_gated_r.Agent.Routes.{Node}
use durable_approval_gated_r.Agent.Graph.{Interrupt, Config, suspended, crashed, run_node, step}
use durable_approval_gated_r.Agent.Keys.{
  HasKeys, reached-HasKeys, await_approval_suspends, crash_is_in_node,
}
use durable_approval_gated_r.Eval.Sandbox.{new_run}
use durable_approval_gated_r.Tests.Runs.{
  sandbox, restarting, deleting, at_question, at_deletion, question-Reach, deleting-Reach,
}

reached-HasKeys_example : HasKeys Node.execute at_deletion.0
reached-HasKeys_example = reached-HasKeys deleting-Reach

abbrev waiting_run : Config
waiting_run = record (new_run "run" sandbox) { state = at_question.0 }

await_approval_suspends_example :
    (question : Interrupt) × (step true deleting Node.await_approval none waiting_run
      ≡ suspended question waiting_run)
    × (waiting_run.state.diagnosis ≡ some question.diagnosis)
    × (waiting_run.state.proposed_action ≡ some question.proposed_action)
    × (waiting_run.state.risk_tier_final ≡ some question.risk_tier)
await_approval_suspends_example = await_approval_suspends true deleting waiting_run question-Reach

abbrev started : Config
started = new_run "run" sandbox

execute_fails :
    step true restarting Node.execute none started ≡ crashed (missing_key "proposed_action") started
unfolding step run_node Nodes.execute initial_state
execute_fails = refl

crash_is_in_node_example :
    ((run_node Node.execute restarting started.turn none started.state started.world).0
      ≡ raised (missing_key "proposed_action"))
    × (started.state ≡ started.state)
    × (started.audit ≡ started.audit)
    × (started.turn ≡ started.turn)
crash_is_in_node_example =
    crash_is_in_node true restarting Node.execute started started (missing_key "proposed_action")
      none execute_fails
