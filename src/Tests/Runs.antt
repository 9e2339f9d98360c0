-- ===== src/Tests/Runs.antt =====
-- Runs of the graph of src/agent/graph.py with scripted models.
use durable_approval_gated_r.Prelude.{
  ℕ, ◌≡◌, ◌≢◌, ◌⊎◌, ◌≤◌, ◌+◌, refl, ap, true, false, Option, none, some, List, [], ◌∷◌, length,
  arith,
}
use durable_approval_gated_r.Act.{Result, ok}
use durable_approval_gated_r.World.{World}
use durable_approval_gated_r.Policy.{low}
use durable_approval_gated_r.Observations
use durable_approval_gated_r.Agent.Nodes
use durable_approval_gated_r.Agent.State.{approved, AgentState, Update, AgentRuntimeContext, Resume}
use durable_approval_gated_r.Agent.Routes.{Node}
use durable_approval_gated_r.Agent.Graph.{
  Config, NodeResult, updated, out_of_fuel, run, enough_fuel, start_workflow, resume_workflow,
}
use durable_approval_gated_r.Agent.Gate.{
  Clearance, observe, Reach, begin, next, IsCleared, unclear, is_forced, execute-IsCleared,
}
use durable_approval_gated_r.Agent.Effects.{only_execute_changes}
use durable_approval_gated_r.Audit.Hook.{get_run}
use durable_approval_gated_r.Audit.Replay.{is_complete_chain}
use durable_approval_gated_r.Audit.Complete.{own_records, resume_all, run_is_complete_chain}
use durable_approval_gated_r.Agent.Termination.{start_workflow_ends, resume_workflow_ends}
use durable_approval_gated_r.Eval.Sandbox.{scripted_context, new_run}
use durable_approval_gated_r.Prelude.Dict.{lookup, insert}
use durable_approval_gated_r.Action.{join_action, split_colon, split_action}
use durable_approval_gated_r.Service.{
  new_service, deployed_version, status, metrics, logs, restart, clean_disk,
}
use durable_approval_gated_r.App.{
  get_health, get_metrics, get_logs, get_version, get_config, get_disk, post_restart,
}
use durable_approval_gated_r.Records.{
  insert_sorted, sorted_by_id, get_by_kind, get_by_ids, delete_rows, delete, new_repository,
  find_row, put_row, insert_many, pop_row,
}
use durable_approval_gated_r.World.{request, store_get, store_record}
use durable_approval_gated_r.Observations.{has_disk, observe_all, gather_observations}
use durable_approval_gated_r.Fingerprint.{
  select_fields, service_fields, relevant_fields, validate_proposal, compute_fingerprint,
}
use durable_approval_gated_r.Policy.{situational_features, apply_policy}
use durable_approval_gated_r.Tools.Readonly.{
  get_service_health, query_db_readonly, check_disk_usage, read_metrics, read_logs,
}
use durable_approval_gated_r.Tools.Mutating.{run_idempotent, restart_service, delete_records}
use durable_approval_gated_r.Execution.{dispatch, execute_action, verify_action}
use durable_approval_gated_r.Agent.State.{initial_state, merge}
use durable_approval_gated_r.Agent.Routes.{
  next_node, route_after_proposal, route_after_risk_classification, route_after_approval,
  route_after_revalidation,
}
use durable_approval_gated_r.Agent.Graph.{run_node}
use durable_approval_gated_r.Eval.Sandbox.{
  build_sandbox, scripted_diagnose, scripted_propose, scripted_classify,
}

abbrev pub sandbox : World
sandbox = build_sandbox []

abbrev pub restarting : AgentRuntimeContext
restarting = scripted_context "restart_service" "service_a" low (λ fields. "digest") (λ turn. turn)

-- The update that a node returns in the sandbox as it was built, if it returns one.
abbrev update_of : Result NodeResult × World → Update
update_of (ok (updated u), w) = u
update_of x = Update.completed

abbrev update_at : AgentRuntimeContext → Node → Option Resume → AgentState → Update
update_at rt n r s = update_of (run_node n rt 0 r s sandbox)

-- A state of the run and its clearance after a node.
abbrev after :
    AgentRuntimeContext → Node → Option Resume → AgentState × Clearance → AgentState × Clearance
after rt n r (s, k) = (merge s (update_at rt n r s), observe k (update_at rt n r s))

abbrev at_start : AgentState × Clearance
at_start = (initial_state "run", unclear)

abbrev after_all :
    AgentRuntimeContext
    → List (Node × Option Resume)
    → AgentState × Clearance
    → AgentState × Clearance
after_all rt [] x = x
after_all rt ((n, r) ∷ ns) x = after_all rt ns (after rt n r x)

abbrev at_execution : AgentState × Clearance
at_execution =
    after_all restarting
      ((Node.diagnose, none)
        ∷ (Node.propose_action, none)
        ∷ (Node.classify_risk, none)
        ∷ (Node.prepare_execution, none)
        ∷ [])
      at_start

restarting-Reach : Reach false restarting Node.execute at_execution.0 at_execution.1
unfolding lookup insert join_action split_colon split_action new_service deployed_version status
    metrics logs restart clean_disk get_health get_metrics get_logs get_version get_config get_disk
    post_restart insert_sorted sorted_by_id get_by_kind get_by_ids delete_rows delete new_repository
    find_row put_row insert_many pop_row request store_get store_record has_disk observe_all
    gather_observations select_fields service_fields relevant_fields validate_proposal
    compute_fingerprint situational_features apply_policy get_service_health query_db_readonly
    check_disk_usage read_metrics read_logs run_idempotent restart_service delete_records dispatch
    execute_action verify_action initial_state merge next_node route_after_proposal
    route_after_risk_classification route_after_approval route_after_revalidation run_node
    build_sandbox scripted_diagnose scripted_propose scripted_classify Observations.observe
    Nodes.diagnose Nodes.propose_action Nodes.classify_risk Nodes.mark_awaiting_approval
    Nodes.take_decision Nodes.revalidate Nodes.idempotency_key Nodes.prepare_execution Nodes.execute
restarting-Reach =
    next _ 0 none sandbox _
      (next _ 0 none sandbox _
        (next _ 0 none sandbox _ (next _ 0 none sandbox _ (begin at_start.0) refl refl refl refl)
          refl refl refl refl)
        refl refl refl refl)
      refl refl refl refl

abbrev pub deleting : AgentRuntimeContext
deleting = scripted_context "delete_records" "session" low (λ fields. "digest") (λ turn. turn)

abbrev decision : Resume
decision = record { decision = approved; edited_action = none; approver_id = some "reviewer" }

-- A deletion waits for its approval.
abbrev pub at_question : AgentState × Clearance
at_question =
    after_all deleting
      ((Node.diagnose, none)
        ∷ (Node.propose_action, none)
        ∷ (Node.classify_risk, none)
        ∷ (Node.mark_awaiting_approval, none)
        ∷ [])
      at_start

pub question-Reach : Reach true deleting Node.await_approval at_question.0 at_question.1
unfolding lookup insert join_action split_colon split_action new_service deployed_version status
    metrics logs restart clean_disk get_health get_metrics get_logs get_version get_config get_disk
    post_restart insert_sorted sorted_by_id get_by_kind get_by_ids delete_rows delete new_repository
    find_row put_row insert_many pop_row request store_get store_record has_disk observe_all
    gather_observations select_fields service_fields relevant_fields validate_proposal
    compute_fingerprint situational_features apply_policy get_service_health query_db_readonly
    check_disk_usage read_metrics read_logs run_idempotent restart_service delete_records dispatch
    execute_action verify_action initial_state merge next_node route_after_proposal
    route_after_risk_classification route_after_approval route_after_revalidation run_node
    build_sandbox scripted_diagnose scripted_propose scripted_classify Observations.observe
    Nodes.diagnose Nodes.propose_action Nodes.classify_risk Nodes.mark_awaiting_approval
    Nodes.take_decision Nodes.revalidate Nodes.idempotency_key Nodes.prepare_execution Nodes.execute
question-Reach =
    next _ 0 none sandbox _
      (next _ 0 none sandbox _
        (next _ 0 none sandbox _ (next _ 0 none sandbox _ (begin at_start.0) refl refl refl refl)
          refl refl refl refl)
        refl refl refl refl)
      refl refl refl refl

abbrev pub at_deletion : AgentState × Clearance
at_deletion =
    after_all deleting
      ((Node.await_approval, some decision)
        ∷ (Node.revalidate, none)
        ∷ (Node.prepare_execution, none)
        ∷ [])
      at_question

pub deleting-Reach : Reach true deleting Node.execute at_deletion.0 at_deletion.1
unfolding lookup insert join_action split_colon split_action new_service deployed_version status
    metrics logs restart clean_disk get_health get_metrics get_logs get_version get_config get_disk
    post_restart insert_sorted sorted_by_id get_by_kind get_by_ids delete_rows delete new_repository
    find_row put_row insert_many pop_row request store_get store_record has_disk observe_all
    gather_observations select_fields service_fields relevant_fields validate_proposal
    compute_fingerprint situational_features apply_policy get_service_health query_db_readonly
    check_disk_usage read_metrics read_logs run_idempotent restart_service delete_records dispatch
    execute_action verify_action initial_state merge next_node route_after_proposal
    route_after_risk_classification route_after_approval route_after_revalidation run_node
    build_sandbox scripted_diagnose scripted_propose scripted_classify Observations.observe
    Nodes.diagnose Nodes.propose_action Nodes.classify_risk Nodes.mark_awaiting_approval
    Nodes.take_decision Nodes.revalidate Nodes.idempotency_key Nodes.prepare_execution Nodes.execute
deleting-Reach =
    next _ 0 none sandbox _
      (next _ 0 none sandbox _
        (next _ 0 (some decision) sandbox _ question-Reach refl refl refl refl) refl refl refl refl)
      refl refl refl refl

deletion_is_forced : is_forced at_deletion.0.proposed_action ≡ true
unfolding lookup insert join_action split_colon split_action new_service deployed_version status
    metrics logs restart clean_disk get_health get_metrics get_logs get_version get_config get_disk
    post_restart insert_sorted sorted_by_id get_by_kind get_by_ids delete_rows delete new_repository
    find_row put_row insert_many pop_row request store_get store_record has_disk observe_all
    gather_observations select_fields service_fields relevant_fields validate_proposal
    compute_fingerprint situational_features apply_policy get_service_health query_db_readonly
    check_disk_usage read_metrics read_logs run_idempotent restart_service delete_records dispatch
    execute_action verify_action initial_state merge next_node route_after_proposal
    route_after_risk_classification route_after_approval route_after_revalidation run_node
    build_sandbox scripted_diagnose scripted_propose scripted_classify Observations.observe
    Nodes.diagnose Nodes.propose_action Nodes.classify_risk Nodes.mark_awaiting_approval
    Nodes.take_decision Nodes.revalidate Nodes.idempotency_key Nodes.prepare_execution Nodes.execute
deletion_is_forced = refl

restarting_changes : (run_node Node.execute restarting 0 none at_execution.0 sandbox).1 ≢ sandbox
unfolding lookup insert join_action split_colon split_action new_service deployed_version status
    metrics logs restart clean_disk get_health get_metrics get_logs get_version get_config get_disk
    post_restart insert_sorted sorted_by_id get_by_kind get_by_ids delete_rows delete new_repository
    find_row put_row insert_many pop_row request store_get store_record has_disk observe_all
    gather_observations select_fields service_fields relevant_fields validate_proposal
    compute_fingerprint situational_features apply_policy get_service_health query_db_readonly
    check_disk_usage read_metrics read_logs run_idempotent restart_service delete_records dispatch
    execute_action verify_action initial_state merge next_node route_after_proposal
    route_after_risk_classification route_after_approval route_after_revalidation run_node
    build_sandbox scripted_diagnose scripted_propose scripted_classify Observations.observe
    Nodes.diagnose Nodes.propose_action Nodes.classify_risk Nodes.mark_awaiting_approval
    Nodes.take_decision Nodes.revalidate Nodes.idempotency_key Nodes.prepare_execution Nodes.execute
restarting_changes e = omega (arith, ap (λ w. length w.store) e)

only_execute_changes_example :
    ((Node.execute ≡ Node.execute) × IsCleared false at_execution.0 at_execution.1)
    ⊎ (Node.execute ≡ Node.rolling_back)
only_execute_changes_example =
    only_execute_changes restarting-Reach 0 none sandbox restarting_changes

execute-IsCleared_example : IsCleared false at_execution.0 at_execution.1
execute-IsCleared_example = execute-IsCleared restarting-Reach

start_workflow_ends_example :
    ((m : Node) → (start_workflow true restarting (new_run "run" sandbox)).0 ≢ out_of_fuel m)
    × ((k : ℕ)
        → run (k + enough_fuel) true restarting Node.diagnose none (new_run "run" sandbox)
          ≡ start_workflow true restarting (new_run "run" sandbox))
    × ((start_workflow true restarting (new_run "run" sandbox)).1.turn ≤ 0 + 26)
start_workflow_ends_example = start_workflow_ends true restarting (new_run "run" sandbox)

-- A run that waits for the approval of a deletion.
abbrev suspended_run : Config
suspended_run = (start_workflow true deleting (new_run "run" sandbox)).1

resume_workflow_ends_example :
    ((m : Node) → (resume_workflow true deleting decision suspended_run).0 ≢ out_of_fuel m)
    × ((k : ℕ)
        → run (k + enough_fuel) true deleting Node.await_approval (some decision) suspended_run
          ≡ resume_workflow true deleting decision suspended_run)
    × ((resume_workflow true deleting decision suspended_run).1.turn ≤ suspended_run.turn + 26)
resume_workflow_ends_example = resume_workflow_ends true deleting suspended_run decision

run_is_complete_chain_example :
    is_complete_chain (
      own_records
        (resume_all true deleting
          (decision ∷ [])
          (start_workflow true deleting (new_run "run" sandbox))).1)
    ≡ true
unfolding get_run
run_is_complete_chain_example =
    run_is_complete_chain deleting (λ i. omega arith) true (new_run "run" sandbox) (decision ∷ [])
      refl
