-- ===== src/Tests/Parts.antt =====
-- The tools, their compensations and a repeated attempt at concrete inputs.
use durable_approval_gated_r.Prelude.{◌≡◌, ◌⊎◌, refl, false, none, some, [], ◌∷◌}
use durable_approval_gated_r.Prelude.Dict.{lookup, insert}
use durable_approval_gated_r.Act.{Error, Result, ok, raised, http_status}
use durable_approval_gated_r.Action.{join_action, split_action}
use durable_approval_gated_r.Service.{ServiceState, new_service}
use durable_approval_gated_r.World.{
  ToolResult, Compensation, ToolArgs, Execution, World, request, store_get, store_record,
}
use durable_approval_gated_r.App.{post_restart}
use durable_approval_gated_r.Tools.Mutating.{
  run_idempotent, restart_service, scale_service, apply_config_change, delete_records,
}
use durable_approval_gated_r.Execution.{no_parameters, dispatch, execute_action}
use durable_approval_gated_r.Records.{get_by_kind, put_row, insert_many, new_repository}
use durable_approval_gated_r.Records.Table.{HasDistinctIds}
use durable_approval_gated_r.Tools.Once.{execute_action-replay, execute_action_once}
use durable_approval_gated_r.Execution.Undo.{
  undo, scale_is_undone, config_is_undone, new_config_is_not_undone, deletion_is_undone,
}
use durable_approval_gated_r.Policy.{low}
use durable_approval_gated_r.Agent.State.{
  AgentState, AgentRuntimeContext, Update, awaiting, merge, initial_state,
}
use durable_approval_gated_r.Agent.Nodes
use durable_approval_gated_r.Agent.Nodes.{idempotency_key, replan_reason}
use durable_approval_gated_r.Agent.Attempts.{attempt, KeepsRows, second_attempt_is_idle}
use durable_approval_gated_r.Eval.Sandbox.{build_sandbox, scripted_context}

abbrev world : World
world = build_sandbox []

abbrev executed : Result (ToolResult × Compensation) × World
executed = execute_action "restart_service:service_a" no_parameters "run:restart" world

abbrev or_noop : Result (ToolResult × Compensation) → ToolResult × Compensation
or_noop (ok out) = out
or_noop (raised e) = (ToolResult.deleted "" [] 0, Compensation.noop "")

executed_runs : executed ≡ (ok (or_noop executed.0), executed.1)
unfolding execute_action dispatch restart_service run_idempotent request split_action lookup
    build_sandbox post_restart
executed_runs = refl

execute_action_once_example :
    execute_action "restart_service:service_a" no_parameters "run:restart" executed.1
    ≡ (ok (or_noop executed.0), executed.1)
execute_action_once_example =
    execute_action_once "restart_service:service_a" no_parameters "run:restart" world executed.1
      (or_noop executed.0) executed_runs

abbrev row : Execution
row = record {
  tool_name = "restart_service";
  args = ToolArgs.on_service "service_a";
  result = ToolResult.deleted "order" [] 0;
  compensation = Compensation.noop "restart has no reversible side effect";
}

abbrev recorded : World
recorded = store_record "run:restart_service:service_a" row world

row_is_recorded : store_get "run:restart_service:service_a" recorded ≡ some row
unfolding store_get store_record build_sandbox insert
row_is_recorded = refl

execute_action-replay_example :
    ((execute_action "scale_service:service_b" no_parameters "run:restart_service:service_a"
        recorded).1
      ≡ recorded)
    × (((execute_action "scale_service:service_b" no_parameters "run:restart_service:service_a"
            recorded).0
          ≡ ok (row.result, row.compensation))
        ⊎ ((x : Error) × ((execute_action "scale_service:service_b" no_parameters
                "run:restart_service:service_a" recorded).0
              ≡ raised x)))
execute_action-replay_example =
    execute_action-replay "scale_service:service_b" no_parameters "run:restart_service:service_a"
      recorded row row_is_recorded

scale_is_undone_example :
    lookup "service_a" (undo (scale_service "service_a" 5 "key") world).1.clients
    ≡ lookup "service_a" world.clients
unfolding build_sandbox store_get
scale_is_undone_example = scale_is_undone "service_a" 5 "key" world "service_a" refl

abbrev a_service : ServiceState
a_service = new_service "service_a" false 2

abbrev configured : ServiceState
configured = record a_service { config = ("mode", "safe") ∷ [] }

abbrev configured_world : World
configured_world = record world { clients = ("service_a", configured) ∷ [] }

config_is_undone_example :
    lookup "service_a"
      (undo (apply_config_change "service_a" "mode" "fast" "key") configured_world).1.clients
    ≡ lookup "service_a" configured_world.clients
unfolding build_sandbox store_get lookup
config_is_undone_example =
    config_is_undone "service_a" "mode" "fast" "safe" "key" configured configured_world "service_a"
      refl refl refl

new_config_is_not_undone_example :
    let after = undo (apply_config_change "service_a" "limit" "10" "key") configured_world in
    (after.0 ≡ raised (http_status 422))
    × (lookup "service_a" after.1.clients
        ≡ some (record configured { config = insert "limit" "10" configured.config }))
unfolding build_sandbox store_get lookup
new_config_is_not_undone_example =
    new_config_is_not_undone "service_a" "limit" "10" "key" configured configured_world refl refl
      refl

abbrev repeated : AgentState
repeated = record (initial_state "run") { proposed_action = some "restart_service:service_a" }

abbrev context : AgentRuntimeContext
context = scripted_context "restart_service" "service_a" low (λ fields. "digest") (λ turn. turn)

abbrev tried : Result Update × World
tried = attempt context 3 repeated world

abbrev or_awaiting : Result Update → Update
or_awaiting (ok u) = u
or_awaiting (raised e) = awaiting

tried_runs : tried ≡ (ok (or_awaiting tried.0), tried.1)
unfolding attempt Nodes.prepare_execution Nodes.execute execute_action dispatch restart_service
    run_idempotent request split_action lookup build_sandbox post_restart merge initial_state
    store_get store_record insert join_action idempotency_key
tried_runs = refl

-- The sandbox with the services as they were before, and the ledger.
abbrev reverted : World
reverted = record tried.1 { clients = world.clients }

rows_are_kept : KeepsRows tried.1 reverted
unfolding store_get
rows_are_kept key e h = h

second_attempt_is_idle_example : (attempt context 9 repeated reverted).1 ≡ reverted
second_attempt_is_idle_example =
    second_attempt_is_idle context context 3 9 repeated repeated world tried.1 reverted
      (or_awaiting tried.0) tried_runs refl refl rows_are_kept

rows_have_distinct_ids : HasDistinctIds world.records.rows
unfolding build_sandbox put_row insert_many new_repository
rows_have_distinct_ids = (refl, (refl, (refl, (refl, (refl, (refl, tt))))))

fresh_key : store_get "key" world ≡ none
unfolding build_sandbox store_get
fresh_key = refl

deletion_is_undone_example :
    get_by_kind none 100 (undo (delete_records "session" (some (5 ∷ 1 ∷ [])) "key") world).1.records
    ≡ get_by_kind none 100 world.records
deletion_is_undone_example =
    deletion_is_undone "session" (some (5 ∷ 1 ∷ [])) "key" world none 100 fresh_key
      (refl, (refl, tt)) rows_have_distinct_ids
