-- ===== src/Eval/LoadTest/Phases.antt =====
-- The super-steps of a run of src/eval/load_test.py: from its start to its suspension, and from its
-- approval to its end.
use durable_approval_gated_r.Prelude.{
  ℕ, ◌+◌, String, ◌≡◌, refl, Bool, true, false, not, str_eq, none, some, List, [], ◌∷◌,
  Option-cases, inl, inr, eq_refl,
}
use durable_approval_gated_r.Act.{Result, ok, raised}
use durable_approval_gated_r.World.{ToolResult, ToolArgs, Compensation, Execution, World}
use durable_approval_gated_r.Observations
use durable_approval_gated_r.Observations.{Observations}
use durable_approval_gated_r.Policy.{medium}
use durable_approval_gated_r.Fingerprint.{Fields}
use durable_approval_gated_r.Agent.Nodes
use durable_approval_gated_r.Agent.State.{
  AgentState, Update, diagnosed, proposed, classified, awaiting, decided, revalidated, prepared,
  executed, verified, approved,
}
use durable_approval_gated_r.Agent.Routes.{Node}
use durable_approval_gated_r.Execution.{no_parameters}
use durable_approval_gated_r.Agent.State.{AgentRuntimeContext}
use durable_approval_gated_r.Audit.Hook
use durable_approval_gated_r.Audit.Hook.{AuditRecord, actor, audit_record}
use durable_approval_gated_r.Eval.Scenario.{approval_by}
use durable_approval_gated_r.Eval.LoadTest.{
  load_test_diagnose, load_test_propose, load_test_classify, load_test_context, Shared, Task,
  running, stopped, config_of, after_step, advance,
}
use durable_approval_gated_r.Agent.Graph.{
  Interrupt, waiting, finished, NodeResult, updated, settle, step,
}
use durable_approval_gated_r.Prelude.Dict.{Dict, lookup, insert}
use durable_approval_gated_r.Action.{join_action, split_colon, split_action}
use durable_approval_gated_r.Service.{
  healthy, new_service, deployed_version, status, metrics, logs, restart, clean_disk,
}
use durable_approval_gated_r.App.{
  get_health, get_metrics, get_logs, get_version, get_config, get_disk, post_restart,
}
use durable_approval_gated_r.Records.{
  insert_sorted, sorted_by_id, get_by_kind, get_by_ids, delete_rows, delete, new_repository,
  find_row, put_row, insert_many, pop_row,
}
use durable_approval_gated_r.World.{request, store_get, store_record}
use durable_approval_gated_r.Observations.{has_disk, observe_all, gather_observations}
use durable_approval_gated_r.Fingerprint.{
  select_fields, service_fields, relevant_fields, validate_proposal, compute_fingerprint,
}
use durable_approval_gated_r.Policy.{situational_features, apply_policy}
use durable_approval_gated_r.Tools.Readonly.{
  get_service_health, query_db_readonly, check_disk_usage, read_metrics, read_logs,
}
use durable_approval_gated_r.Tools.Mutating.{run_idempotent, restart_service, delete_records}
use durable_approval_gated_r.Execution.{dispatch, execute_action, verify_action}
use durable_approval_gated_r.Agent.State.{initial_state, merge}
use durable_approval_gated_r.Agent.Routes.{
  next_node, route_after_proposal, route_after_risk_classification, route_after_approval,
  route_after_revalidation,
}
use durable_approval_gated_r.Agent.Graph.{run_node}
use durable_approval_gated_r.Eval.Sandbox.{
  seed_records, build_sandbox, scripted_diagnose, scripted_propose, scripted_classify,
}

-- The sandbox after some restarts of service_a, with any ledger.
abbrev pub world_at : ℕ → Dict Execution → World
world_at k store = record {
  clients =
      ("service_a", record (new_service "service_a" false 1) { restart_count = k })
      ∷ ("service_b", new_service "service_b" false 1)
      ∷ ("service_c", new_service "service_c" true 1)
      ∷ [];
  store = store;
  records = new_repository seed_records;
}

abbrev observations_or : Result Observations → Observations
observations_or (ok o) = o
observations_or (raised e) = record { services = []; records = [] }

-- What a sweep sees after some restarts.
abbrev seen : ℕ → Observations
seen k = observations_or (gather_observations (world_at k [])).0

abbrev string_or : Result String → String
string_or (ok s) = s
string_or (raised e) = ""

abbrev action : String
action = "restart_service:service_a"

-- The fingerprint of the proposal, whatever service_a's restarts.
abbrev fingerprint : (Fields → String) → String
fingerprint digest = string_or (compute_fingerprint digest (seen 0) action)

-- The state of a run where it comes to a node; k is how often service_a was restarted before the last
-- sweep of the run.
module _ (digest : Fields → String) (id : String) (k : ℕ) where
  abbrev pub at_proposal : AgentState
  at_proposal = merge (initial_state id) (diagnosed (seen k) "load-test stub diagnosis")

  abbrev pub at_risk : AgentState
  at_risk =
      merge at_proposal
        (proposed action no_parameters "load-test stub" (some (fingerprint digest)) none)

  abbrev pub at_marking : AgentState
  at_marking =
      merge at_risk
        (classified medium medium "load-test stub, always medium so every run suspends" false)

  abbrev pub at_approval : AgentState
  at_approval = merge at_marking awaiting

  abbrev pub at_check : AgentState
  at_check = merge at_approval (decided approved (some "load-test") none)

  abbrev pub at_preparation : ℕ → AgentState
  at_preparation j = merge at_check (revalidated (seen j) (fingerprint digest) false)

  abbrev pub at_execution : ℕ → AgentState
  at_execution j = merge (at_preparation j) (prepared (Nodes.idempotency_key id action))

  abbrev pub at_verification : ℕ → ToolResult → Compensation → AgentState
  at_verification j r c = merge (at_execution j) (executed r c)

  abbrev pub at_completion : ℕ → ToolResult → Compensation → AgentState
  at_completion j r c = merge (at_verification j r c) (verified true)

  abbrev pub at_end : ℕ → ToolResult → Compensation → AgentState
  at_end j r c = merge (at_completion j r c) Update.completed

module _ (digest : Fields → String) (clock : ℕ → ℕ) (id : String) (k j : ℕ) (store : Dict Execution)
    (audit : List AuditRecord) (turn : ℕ) where
  abbrev rt : AgentRuntimeContext
  rt = load_test_context digest clock

  abbrev pub shared : Shared
  shared = record { world = world_at j store; audit = audit; turn = turn }

  -- The task goes on as given, in the same sandbox.
  abbrev pub Goes : Task → Task → Type 0
  Goes t t' = ((advance rt t shared).0 ≡ t') × ((advance rt t shared).1.world ≡ world_at j store)

  abbrev pub question : Interrupt
  question = record {
    run_id = id;
    diagnosis = "load-test stub diagnosis";
    proposed_action = action;
    risk_tier = medium;
  }

  pub start_steps :
      Goes
        (running Node.diagnose none (initial_state id))
        (running Node.propose_action none (at_proposal digest id j))
      × Goes
          (running Node.propose_action none (at_proposal digest id k))
          (running Node.classify_risk none (at_risk digest id k))
      × Goes
          (running Node.classify_risk none (at_risk digest id k))
          (running Node.mark_awaiting_approval none (at_marking digest id k))
      × Goes
          (running Node.mark_awaiting_approval none (at_marking digest id k))
          (running Node.await_approval none (at_approval digest id k))
      × Goes
          (running Node.await_approval none (at_approval digest id k))
          (stopped (waiting question) (at_approval digest id k))
  unfolding lookup insert join_action split_colon split_action new_service deployed_version status
      metrics logs restart clean_disk get_health get_metrics get_logs get_version get_config
      get_disk post_restart insert_sorted sorted_by_id get_by_kind get_by_ids delete_rows delete
      new_repository find_row put_row insert_many pop_row request store_get store_record has_disk
      observe_all gather_observations select_fields service_fields relevant_fields validate_proposal
      compute_fingerprint situational_features apply_policy get_service_health query_db_readonly
      check_disk_usage read_metrics read_logs run_idempotent restart_service delete_records dispatch
      execute_action verify_action initial_state merge next_node route_after_proposal
      route_after_risk_classification route_after_approval route_after_revalidation run_node
      build_sandbox scripted_diagnose scripted_propose scripted_classify Observations.observe
      Nodes.diagnose Nodes.propose_action Nodes.classify_risk Nodes.mark_awaiting_approval
      Nodes.take_decision Nodes.revalidate Nodes.idempotency_key Nodes.prepare_execution
      Nodes.execute advance step audit_record Hook.store_record actor load_test_diagnose
      load_test_propose load_test_classify Nodes.verify Nodes.completed
  start_steps = ((refl, refl), (refl, refl), (refl, refl), (refl, refl), (refl, refl))

  no_drift :
      (same : Bool)
      → same ≡ true
      → (out : Result NodeResult × World)
      → out
        ≡ (ok (updated (revalidated (seen j) (fingerprint digest) (not same))), world_at j store)
      → let after =
          after_step Node.revalidate
            (settle true rt Node.revalidate (config_of (at_check digest id k) shared) out) in
        (after.0 ≡ running Node.prepare_execution none (at_preparation digest id k j))
        × (after.1.world ≡ world_at j store)
  unfolding next_node route_after_revalidation merge
  no_drift true same out is = rw is (refl, refl)
  no_drift false same out is = cc

  pub check_step :
      Goes
        (running Node.revalidate none (at_check digest id k))
        (running Node.prepare_execution none (at_preparation digest id k j))
  unfolding lookup insert join_action split_colon split_action new_service deployed_version status
      metrics logs restart clean_disk get_health get_metrics get_logs get_version get_config
      get_disk post_restart insert_sorted sorted_by_id get_by_kind get_by_ids delete_rows delete
      new_repository find_row put_row insert_many pop_row request store_get store_record has_disk
      observe_all gather_observations select_fields service_fields relevant_fields validate_proposal
      compute_fingerprint situational_features apply_policy get_service_health query_db_readonly
      check_disk_usage read_metrics read_logs run_idempotent restart_service delete_records dispatch
      execute_action verify_action initial_state merge next_node route_after_proposal
      route_after_risk_classification route_after_approval route_after_revalidation run_node
      build_sandbox scripted_diagnose scripted_propose scripted_classify Observations.observe
      Nodes.diagnose Nodes.propose_action Nodes.classify_risk Nodes.mark_awaiting_approval
      Nodes.take_decision Nodes.revalidate Nodes.idempotency_key Nodes.prepare_execution
      Nodes.execute advance step audit_record Hook.store_record actor load_test_diagnose
      load_test_propose load_test_classify Nodes.verify Nodes.completed
  check_step =
      no_drift (str_eq (fingerprint digest) (fingerprint digest)) (eq_refl (fingerprint digest))
        (run_node Node.revalidate rt turn none (at_check digest id k) (world_at j store)) refl

  pub burst_steps :
      (i : ℕ) (r : ToolResult) (c : Compensation)
      → Goes
          (running Node.await_approval (some (approval_by "load-test")) (at_approval digest id k))
          (running Node.revalidate none (at_check digest id k))
        × Goes
            (running Node.prepare_execution none (at_preparation digest id k i))
            (running Node.execute none (at_execution digest id k i))
        × Goes
            (running Node.verify none (at_verification digest id k i r c))
            (running Node.completed none (at_completion digest id k i r c))
        × Goes
            (running Node.completed none (at_completion digest id k i r c))
            (stopped finished (at_end digest id k i r c))
  unfolding lookup insert join_action split_colon split_action new_service deployed_version status
      metrics logs restart clean_disk get_health get_metrics get_logs get_version get_config
      get_disk post_restart insert_sorted sorted_by_id get_by_kind get_by_ids delete_rows delete
      new_repository find_row put_row insert_many pop_row request store_get store_record has_disk
      observe_all gather_observations select_fields service_fields relevant_fields validate_proposal
      compute_fingerprint situational_features apply_policy get_service_health query_db_readonly
      check_disk_usage read_metrics read_logs run_idempotent restart_service delete_records dispatch
      execute_action verify_action initial_state merge next_node route_after_proposal
      route_after_risk_classification route_after_approval route_after_revalidation run_node
      build_sandbox scripted_diagnose scripted_propose scripted_classify Observations.observe
      Nodes.diagnose Nodes.propose_action Nodes.classify_risk Nodes.mark_awaiting_approval
      Nodes.take_decision Nodes.revalidate Nodes.idempotency_key Nodes.prepare_execution
      Nodes.execute advance step audit_record Hook.store_record actor load_test_diagnose
      load_test_propose load_test_classify Nodes.verify Nodes.completed
  burst_steps i r c = ((refl, refl), (refl, refl), (refl, refl), (refl, refl))

  abbrev row : Execution
  row = record {
    tool_name = "restart_service";
    args = ToolArgs.on_service "service_a";
    result =
        ToolResult.restarted
          (record { service = "service_a"; restart_count = j + 1; status = healthy });
    compensation = Compensation.noop "restart has no reversible side effect";
  }

  -- The restart, or the replay of a restart that the ledger has under the run's key.
  pub execution_step :
      (i : ℕ)
      → (r : ToolResult) × (c : Compensation) × (m : ℕ) × (rows : Dict Execution) × ((advance rt
            (running Node.execute none (at_execution digest id k i))
            shared).0
          ≡ running Node.verify none (at_verification digest id k i r c))
        × ((advance rt (running Node.execute none (at_execution digest id k i)) shared).1.world
            ≡ world_at m rows)
  unfolding lookup insert join_action split_colon split_action new_service deployed_version status
      metrics logs restart clean_disk get_health get_metrics get_logs get_version get_config
      get_disk post_restart insert_sorted sorted_by_id get_by_kind get_by_ids delete_rows delete
      new_repository find_row put_row insert_many pop_row request store_get store_record has_disk
      observe_all gather_observations select_fields service_fields relevant_fields validate_proposal
      compute_fingerprint situational_features apply_policy get_service_health query_db_readonly
      check_disk_usage read_metrics read_logs run_idempotent restart_service delete_records dispatch
      execute_action verify_action initial_state merge next_node route_after_proposal
      route_after_risk_classification route_after_approval route_after_revalidation run_node
      build_sandbox scripted_diagnose scripted_propose scripted_classify Observations.observe
      Nodes.diagnose Nodes.propose_action Nodes.classify_risk Nodes.mark_awaiting_approval
      Nodes.take_decision Nodes.revalidate Nodes.idempotency_key Nodes.prepare_execution
      Nodes.execute advance step audit_record Hook.store_record actor load_test_diagnose
      load_test_propose load_test_classify Nodes.verify Nodes.completed
  execution_step i = elim (Option-cases (lookup (Nodes.idempotency_key id action) store)) [
    | inl missing ↦ (
      row.result,
      row.compensation,
      j + 1,
      insert (Nodes.idempotency_key id action) row store,
      rw missing refl,
      rw missing (rw missing refl),
    )
    | inr (old, found) ↦ (old.result, old.compensation, j, store, rw found refl, rw found refl)
  ]
