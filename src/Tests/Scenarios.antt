-- ===== src/Tests/Scenarios.antt =====
-- Scenarios that the harness drives, and a mode of the suite that crashed.
use durable_approval_gated_r.Prelude.{
  ◌≡◌, ◌⊎◌, inl, inr, refl, String, Bool, true, false, Option, none, some, List, [], ◌∷◌, str_eq,
}
use durable_approval_gated_r.Act.{Error, Result, ok, raised, model_failed}
use durable_approval_gated_r.World.{World}
use durable_approval_gated_r.App.{admin_fault}
use durable_approval_gated_r.Service.{apply_fault}
use durable_approval_gated_r.Policy.{low}
use durable_approval_gated_r.Observations
use durable_approval_gated_r.Agent.Nodes
use durable_approval_gated_r.Agent.State.{AgentRuntimeContext}
use durable_approval_gated_r.Agent.Graph.{Stop, run, step, start_workflow, resume_workflow}
use durable_approval_gated_r.Audit.Hook.{get_run}
use durable_approval_gated_r.Eval.Sandbox.{scripted_context, new_run}
use durable_approval_gated_r.Eval.Validation.{Scenario}
use durable_approval_gated_r.Eval.Faults.{Change, inject, apply_staleness_change}
use durable_approval_gated_r.Eval.Metrics.{AblationMode, RunRecord}
use durable_approval_gated_r.Eval.Scenario.{
  begun, enough_approvals, approve, approve_all, apply_changes, actions_at, run_record,
  drive_scenario, run_scenario,
}
use durable_approval_gated_r.Eval.Approvals.{IsOver, approvals_end}
use durable_approval_gated_r.Eval.Compliance.{IsCompliant, run_scenario-id}
use durable_approval_gated_r.Eval.RunSuite.{
  run_modes, selected, remaining, read_jsonl, run_mode, run_todo,
}
use durable_approval_gated_r.Eval.Resumption.{resume_completes}
use durable_approval_gated_r.Eval.AllFiles.{AllFiles}
use durable_approval_gated_r.Eval.Summary.{
  SuiteSummary, index_scenarios, summary_of, summarize_suite, put_records, results_by_mode,
}
use durable_approval_gated_r.Eval.Sound.{AreSound, summary-IsSound}
use durable_approval_gated_r.Eval.Metrics.{ScenarioTruth}
use durable_approval_gated_r.Prelude.Dict.{lookup, insert}
use durable_approval_gated_r.Action.{join_action, split_colon, split_action}
use durable_approval_gated_r.Service.{
  new_service, deployed_version, status, metrics, logs, restart, clean_disk,
}
use durable_approval_gated_r.App.{
  get_health, get_metrics, get_logs, get_version, get_config, get_disk, post_restart,
}
use durable_approval_gated_r.Records.{
  insert_sorted, sorted_by_id, get_by_kind, get_by_ids, delete_rows, delete, new_repository,
  find_row, put_row, insert_many, pop_row,
}
use durable_approval_gated_r.World.{request, store_get, store_record}
use durable_approval_gated_r.Observations.{has_disk, observe_all, gather_observations}
use durable_approval_gated_r.Fingerprint.{
  select_fields, service_fields, relevant_fields, validate_proposal, compute_fingerprint,
}
use durable_approval_gated_r.Policy.{situational_features, apply_policy}
use durable_approval_gated_r.Tools.Readonly.{
  get_service_health, query_db_readonly, check_disk_usage, read_metrics, read_logs,
}
use durable_approval_gated_r.Tools.Mutating.{run_idempotent, restart_service, delete_records}
use durable_approval_gated_r.Execution.{dispatch, execute_action, verify_action}
use durable_approval_gated_r.Agent.State.{initial_state, merge}
use durable_approval_gated_r.Agent.Routes.{
  next_node, route_after_proposal, route_after_risk_classification, route_after_approval,
  route_after_revalidation,
}
use durable_approval_gated_r.Agent.Graph.{run_node}
use durable_approval_gated_r.Eval.Sandbox.{
  build_sandbox, scripted_diagnose, scripted_propose, scripted_classify,
}

abbrev deleting : AgentRuntimeContext
deleting = scripted_context "delete_records" "session" low (λ fields. "digest") (λ turn. turn)

abbrev fault : Change
fault = record {
  action = none;
  service = some "service_a";
  fault_type = some "cpu_spike";
  rate = some "low";
  kind = none;
}

abbrev scenario : Scenario
scenario = record {
  id = some "s001";
  category = some "low_risk";
  fault_injection = some fault;
  correct_actions = none;
  acceptable_actions = none;
  forbidden_actions = none;
  expected_risk_tier = none;
  has_name = false;
  has_expected_diagnosis = false;
  has_verification = false;
  staleness_injection = none;
  has_expected_drift = false;
}

abbrev run_it : Scenario → Result RunRecord
run_it s = run_scenario [] AblationMode.full deleting 2 "operator" "eval-s001-full" s

abbrev sandbox : World
sandbox = build_sandbox []

approvals_end_example :
    let p = begun (start_workflow true deleting (new_run "run" sandbox)) in
    let q =
      approve_all enough_approvals AblationMode.full deleting 2 "operator"
        (record p { config = record p.config { world = sandbox } }) in
    IsOver (q.stop, q.config)
approvals_end_example =
    approvals_end AblationMode.full deleting 2 "operator" (new_run "run" sandbox) sandbox

abbrev record_or : RunRecord → Result RunRecord → RunRecord
record_or r (ok q) = q
record_or r (raised e) = r

abbrev is_ok : Result RunRecord → Bool
is_ok (ok r) = true
is_ok (raised e) = false

record_or-eq : (r : RunRecord) (x : Result RunRecord) → is_ok x ≡ true → x ≡ ok (record_or r x)
record_or-eq r (ok q) h = refl
record_or-eq r (raised e) h = cc

abbrev no_record : RunRecord
no_record =
    run_record "" "" AblationMode.full false false (begun (Stop.finished, new_run "" sandbox))

abbrev record_of : Scenario → RunRecord
record_of s = record_or no_record (run_it s)

scenario_runs : is_ok (run_it scenario) ≡ true
unfolding lookup insert join_action split_colon split_action new_service deployed_version status
    metrics logs restart clean_disk get_health get_metrics get_logs get_version get_config get_disk
    post_restart insert_sorted sorted_by_id get_by_kind get_by_ids delete_rows delete new_repository
    find_row put_row insert_many pop_row request store_get store_record has_disk observe_all
    gather_observations select_fields service_fields relevant_fields validate_proposal
    compute_fingerprint situational_features apply_policy get_service_health query_db_readonly
    check_disk_usage read_metrics read_logs run_idempotent restart_service delete_records dispatch
    execute_action verify_action initial_state merge next_node route_after_proposal
    route_after_risk_classification route_after_approval route_after_revalidation run_node
    build_sandbox scripted_diagnose scripted_propose scripted_classify Observations.observe
    Nodes.diagnose Nodes.propose_action Nodes.classify_risk Nodes.mark_awaiting_approval
    Nodes.take_decision Nodes.revalidate Nodes.idempotency_key Nodes.prepare_execution Nodes.execute
    inject apply_changes apply_staleness_change actions_at run_record drive_scenario run_scenario
    approve approve_all start_workflow resume_workflow run step get_run admin_fault apply_fault
    Nodes.verify Nodes.completed
scenario_runs = refl

abbrev second : Scenario
second = record scenario { id = some "s002" }

-- A model that fails in the second scenario.
abbrev unless_second : Bool → Scenario → Result RunRecord
unless_second true s = raised model_failed
unless_second false s = run_it s

abbrev is_second : Option String → Bool
is_second none = false
is_second (some id) = str_eq id "s002"

abbrev crashing : Scenario → Result RunRecord
crashing s = unless_second (is_second s.id) s

unless_second-cases :
    (b : Bool) (s : Scenario)
    → (unless_second b s ≡ run_it s) ⊎ ((e : Error) × (unless_second b s ≡ raised e))
unless_second-cases true s = inr (model_failed, refl)
unless_second-cases false s = inl refl

resume_completes_example :
    run_mode run_it AblationMode.full true
      (scenario ∷ second ∷ [])
      (run_mode crashing AblationMode.full false (scenario ∷ second ∷ []) []).1
    ≡ run_mode run_it AblationMode.full false (scenario ∷ second ∷ []) []
resume_completes_example =
    resume_completes run_it crashing AblationMode.full ("s001" ∷ "s002" ∷ [])
      (scenario ∷ second ∷ []) []
      (run_scenario-id [] AblationMode.full deleting 2 "operator" "eval-s001-full")
      (λ s. unless_second-cases (is_second s.id) s) (refl, (refl, tt)) (refl, (refl, tt))

abbrev finished_mode : List RunRecord
finished_mode = record_of scenario ∷ []

abbrev run_in : AblationMode → Scenario → Result RunRecord
run_in mode s = run_scenario [] mode deleting 2 "operator" "eval-s001-full" s

abbrev by_mode : List (AblationMode × List RunRecord)
by_mode = (AblationMode.full, finished_mode) ∷ []

abbrev truth : Scenario → ScenarioTruth
truth s = record {
  category = "low_risk";
  acceptable_actions = "delete_records:session" ∷ [];
  forbidden_actions = [];
  expected_drift_detected = false;
  expected_risk_tier = "high";
}

abbrev summary : SuiteSummary
summary =
    summary_of (AblationMode.full ∷ []) (scenario ∷ []) by_mode (("s001", truth scenario) ∷ [])

suite_runs :
    (summarize_suite truth run_in
      (AblationMode.full ∷ [])
      ("s001" ∷ [])
      true
      (scenario ∷ second ∷ [])
      []).0
    ≡ ok summary
unfolding summarize_suite index_scenarios results_by_mode put_records insert selected run_modes
    run_mode run_todo read_jsonl lookup remaining
suite_runs = rw (record_or-eq no_record (run_it scenario) scenario_runs) refl

no_files : AllFiles IsCompliant []
unfolding read_jsonl lookup
no_files path = tt

summary-IsSound_example : AreSound summary.by_mode
summary-IsSound_example =
    summary-IsSound truth [] deleting 2 "operator" (λ s. "eval-s001-full") (AblationMode.full ∷ [])
      ("s001" ∷ []) true (scenario ∷ second ∷ []) summary [] no_files suite_runs
