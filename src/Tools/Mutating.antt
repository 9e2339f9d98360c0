-- ===== src/Tools/Mutating.antt =====
-- src/tools/mutating.py: the tools that change the sandbox, each idempotent on its key.
use durable_approval_gated_r.Prelude.{
  ℕ, String, Bool, true, false, Option, none, some, List, map, length,
}
use durable_approval_gated_r.Act.{Act, pure, gets, ok, ◌>>=◌}
use durable_approval_gated_r.App.{
  post_restart, post_scale, post_config, post_rollback, post_disk_clean,
}
use durable_approval_gated_r.Records.{Row, get_by_kind, get_by_ids, delete}
use durable_approval_gated_r.World.{
  ToolResult, Compensation, ToolArgs, on_service, to_replicas, on_records, to_config, Execution,
  World, request, store_get, store_record,
}

-- `MutationResult` of src/tools/schemas.py.
pub record MutationResult : Type 0 where
  pub tool : String
  pub idempotency_key : String
  pub idempotent_replay : Bool
  pub result : ToolResult
  pub compensation : Compensation

abbrev pub replay : String → String → Execution → MutationResult
replay tool_name key existing = record {
  tool = tool_name;
  idempotency_key = key;
  idempotent_replay = true;
  result = existing.result;
  compensation = existing.compensation;
}

abbrev pub persist :
    String → String → ToolArgs → ToolResult × Compensation → Act World MutationResult
persist tool_name key args (result, compensation) w = (
  ok (record {
    tool = tool_name;
    idempotency_key = key;
    idempotent_replay = false;
    result = result;
    compensation = compensation;
  }),
  store_record key
      (record { tool_name = tool_name; args = args; result = result; compensation = compensation })
      w,
)

abbrev pub perform_or_replay :
    Option Execution
    → String
    → String
    → ToolArgs
    → Act World (ToolResult × Compensation)
    → Act World MutationResult
perform_or_replay (some existing) tool_name key args perform = pure (replay tool_name key existing)
perform_or_replay none tool_name key args perform = perform >>= persist tool_name key args

-- `_run_idempotent`
unfoldable pub run_idempotent :
    String → String → ToolArgs → Act World (ToolResult × Compensation) → Act World MutationResult
unfolding store_get
run_idempotent tool_name key args perform w =
    perform_or_replay (store_get key w) tool_name key args perform w

unfoldable pub restart_service : String → String → Act World MutationResult
restart_service service key = run_idempotent "restart_service" key (on_service service) (do
  result ← request service post_restart
  pure (ToolResult.restarted result, Compensation.noop "restart has no reversible side effect"))

unfoldable pub scale_service : String → ℕ → String → Act World MutationResult
scale_service service replicas key =
    run_idempotent "scale_service" key (to_replicas service replicas) (do
      result ← request service (post_scale replicas)
      pure (ToolResult.scaled result, Compensation.scale_service service result.previous_replicas))

-- The rows that a deletion names: those of the ids, or every row of the kind.
abbrev pub rows_to_delete : String → Option (List ℕ) → World → List Row
rows_to_delete kind (some ids) w = get_by_ids ids w.records
rows_to_delete kind none w = get_by_kind (some kind) 1000000 w.records

abbrev pub delete_found : String → List Row → Act World (ToolResult × Compensation)
delete_found kind rows w =
    let ids = map (λ r. r.id) rows in
    (
      ok (ToolResult.deleted kind ids (length ids), Compensation.reinsert_records rows),
      record w { records = delete ids w.records },
    )

unfoldable pub delete_records : String → Option (List ℕ) → String → Act World MutationResult
delete_records kind ids key =
    run_idempotent "delete_records" key (on_records kind ids)
      (do rows ← gets (rows_to_delete kind ids); delete_found kind rows)

unfoldable pub clear_cache : String → String → Act World MutationResult
clear_cache service key = run_idempotent "clear_cache" key (on_service service) (do
  result ← request service post_disk_clean
  pure (ToolResult.cleared result, Compensation.noop "cleared cache space cannot be restored"))

unfoldable pub apply_config_change : String → String → String → String → Act World MutationResult
apply_config_change service name value key =
    run_idempotent "apply_config_change" key (to_config service name value) (do
      result ← request service (post_config name (some value))
      pure (
        ToolResult.reconfigured result,
        Compensation.apply_config_change service name result.previous_value,
      ))

unfoldable pub rollback_deployment : String → String → Act World MutationResult
rollback_deployment service key = run_idempotent "rollback_deployment" key (on_service service) (do
  result ← request service post_rollback
  pure (ToolResult.rolled_back result, Compensation.deploy service result.rolled_back_from))
