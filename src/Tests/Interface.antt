-- ===== src/Tests/Interface.antt =====
-- The HTTP interface at concrete inputs.
use durable_approval_gated_r.Prelude.{◌≡◌, refl, Bool, true, false, none, some, [], arith}
use durable_approval_gated_r.Prelude.Dict.{lookup}
use durable_approval_gated_r.Act.{Result, ok, raised, http_status}
use durable_approval_gated_r.Policy.{low}
use durable_approval_gated_r.Agent.State.{timeout, AgentRuntimeContext, Resume}
use durable_approval_gated_r.Api.{
  to_response, sync_registry, RunStatusResponse, CreateRunRequest, Server, is_waiting, create_run,
  get_run, submit_decision,
}
use durable_approval_gated_r.Api.Decisions.{decided_once}
use durable_approval_gated_r.Api.Isolation.{
  Request, creation, decision_on, serve_all, IsShown, ended_run_stays,
}
use durable_approval_gated_r.Agent.State.{State}
use durable_approval_gated_r.Prelude.{List, ◌∷◌}
use durable_approval_gated_r.Eval.Sandbox.{build_sandbox, scripted_context}
use durable_approval_gated_r.Observations
use durable_approval_gated_r.Agent.Nodes
use durable_approval_gated_r.Prelude.Dict.{insert}
use durable_approval_gated_r.Action.{join_action, split_colon, split_action}
use durable_approval_gated_r.Service.{
  new_service, deployed_version, status, metrics, logs, restart, clean_disk,
}
use durable_approval_gated_r.App.{
  get_health, get_metrics, get_logs, get_version, get_config, get_disk, post_restart,
}
use durable_approval_gated_r.Records.{
  insert_sorted, sorted_by_id, get_by_kind, get_by_ids, delete_rows, delete, new_repository,
  find_row, put_row, insert_many, pop_row,
}
use durable_approval_gated_r.World.{request, store_get, store_record}
use durable_approval_gated_r.Observations.{has_disk, observe_all, gather_observations}
use durable_approval_gated_r.Fingerprint.{
  select_fields, service_fields, relevant_fields, validate_proposal, compute_fingerprint,
}
use durable_approval_gated_r.Policy.{situational_features, apply_policy}
use durable_approval_gated_r.Tools.Readonly.{
  get_service_health, query_db_readonly, check_disk_usage, read_metrics, read_logs,
}
use durable_approval_gated_r.Tools.Mutating.{run_idempotent, restart_service, delete_records}
use durable_approval_gated_r.Execution.{dispatch, execute_action, verify_action}
use durable_approval_gated_r.Agent.State.{initial_state, merge}
use durable_approval_gated_r.Agent.Routes.{
  next_node, route_after_proposal, route_after_risk_classification, route_after_approval,
  route_after_revalidation, route_after_replan,
}
use durable_approval_gated_r.Agent.Graph.{run_node, step, run}
use durable_approval_gated_r.Eval.Sandbox.{scripted_diagnose, scripted_propose, scripted_classify}
use durable_approval_gated_r.Audit.Hook.{audit_record, actor}

abbrev server : Server
server = record { runs = []; threads = []; world = build_sandbox []; audit = []; turn = 0 }

abbrev context : AgentRuntimeContext
context = scripted_context "delete_records" "session" low (λ fields. "digest") (λ turn. turn)

abbrev body : CreateRunRequest
body = record { run_id = "run"; scenario_id = some "trap-1"; entries = λ s. s }

abbrev created : Result RunStatusResponse × Server
created = create_run true context body server

abbrev no_row : RunStatusResponse
no_row = record {
  run_id = "";
  status = none;
  scenario_id = none;
  diagnosis = none;
  proposed_action = none;
  risk_tier = none;
  rationale = none;
  final_state = none;
}

abbrev or_no_row : Result RunStatusResponse → RunStatusResponse
or_no_row (ok row) = row
or_no_row (raised e) = no_row

abbrev is_ok : Result RunStatusResponse → Bool
is_ok (ok row) = true
is_ok (raised e) = false

answers : (x : Result RunStatusResponse × Server) → is_ok x.0 ≡ true → x ≡ (ok (or_no_row x.0), x.1)
answers (ok row, s) h = refl
answers (raised e, s) h = absurd (ground (arith, h))

creates : created ≡ (ok (or_no_row created.0), created.1)
unfolding lookup insert join_action split_colon split_action new_service deployed_version status
    metrics logs restart clean_disk get_health get_metrics get_logs get_version get_config get_disk
    post_restart insert_sorted sorted_by_id get_by_kind get_by_ids delete_rows delete new_repository
    find_row put_row insert_many pop_row request store_get store_record has_disk observe_all
    gather_observations select_fields service_fields relevant_fields validate_proposal
    compute_fingerprint situational_features apply_policy get_service_health query_db_readonly
    check_disk_usage read_metrics read_logs run_idempotent restart_service delete_records dispatch
    execute_action verify_action initial_state merge next_node route_after_proposal
    route_after_risk_classification route_after_approval route_after_revalidation route_after_replan
    run_node step run build_sandbox scripted_diagnose scripted_propose scripted_classify
    audit_record actor Observations.observe Nodes.diagnose Nodes.propose_action Nodes.classify_risk
    Nodes.mark_awaiting_approval Nodes.take_decision Nodes.escalate to_response sync_registry
    create_run submit_decision
creates = answers created refl

abbrev expiry : Resume
expiry = record { decision = timeout; edited_action = none; approver_id = none }

abbrev decided : Result RunStatusResponse × Server
decided = submit_decision true context "run" expiry created.1

decides : decided ≡ (ok (or_no_row decided.0), decided.1)
unfolding lookup insert join_action split_colon split_action new_service deployed_version status
    metrics logs restart clean_disk get_health get_metrics get_logs get_version get_config get_disk
    post_restart insert_sorted sorted_by_id get_by_kind get_by_ids delete_rows delete new_repository
    find_row put_row insert_many pop_row request store_get store_record has_disk observe_all
    gather_observations select_fields service_fields relevant_fields validate_proposal
    compute_fingerprint situational_features apply_policy get_service_health query_db_readonly
    check_disk_usage read_metrics read_logs run_idempotent restart_service delete_records dispatch
    execute_action verify_action initial_state merge next_node route_after_proposal
    route_after_risk_classification route_after_approval route_after_revalidation route_after_replan
    run_node step run build_sandbox scripted_diagnose scripted_propose scripted_classify
    audit_record actor Observations.observe Nodes.diagnose Nodes.propose_action Nodes.classify_risk
    Nodes.mark_awaiting_approval Nodes.take_decision Nodes.escalate to_response sync_registry
    create_run submit_decision
decides = answers decided refl

has_ended : is_waiting (or_no_row decided.0).status ≡ false
unfolding lookup insert join_action split_colon split_action new_service deployed_version status
    metrics logs restart clean_disk get_health get_metrics get_logs get_version get_config get_disk
    post_restart insert_sorted sorted_by_id get_by_kind get_by_ids delete_rows delete new_repository
    find_row put_row insert_many pop_row request store_get store_record has_disk observe_all
    gather_observations select_fields service_fields relevant_fields validate_proposal
    compute_fingerprint situational_features apply_policy get_service_health query_db_readonly
    check_disk_usage read_metrics read_logs run_idempotent restart_service delete_records dispatch
    execute_action verify_action initial_state merge next_node route_after_proposal
    route_after_risk_classification route_after_approval route_after_revalidation route_after_replan
    run_node step run build_sandbox scripted_diagnose scripted_propose scripted_classify
    audit_record actor Observations.observe Nodes.diagnose Nodes.propose_action Nodes.classify_risk
    Nodes.mark_awaiting_approval Nodes.take_decision Nodes.escalate to_response sync_registry
    create_run submit_decision
has_ended = refl

decided_once_example :
    (get_run "run" decided.1 ≡ (ok (or_no_row decided.0), decided.1))
    × (submit_decision true context "run" expiry decided.1 ≡ (raised (http_status 409), decided.1))
decided_once_example =
    decided_once true context "run" expiry expiry created.1 decided.1 (or_no_row decided.0) decides
      has_ended

abbrev ended_row : RunStatusResponse
ended_row = record no_row { run_id = "run"; status = some State.escalated }

abbrev ended_server : Server
ended_server = record server { runs = ("run", ended_row) ∷ [] }

abbrev requests : List Request
requests =
    decision_on "run" expiry
    ∷ creation (record body { run_id = "other" })
    ∷ decision_on "other" expiry
    ∷ []

ended_row-IsShown : IsShown "run" ended_row none ended_server
unfolding lookup
ended_row-IsShown = (refl, refl)

ended_run_stays_example :
    IsShown "run" ended_row none (serve_all true context requests ended_server)
ended_run_stays_example =
    ended_run_stays "run" ended_row none true context requests ended_server refl (refl, tt)
      ended_row-IsShown
