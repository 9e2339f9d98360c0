-- ===== src/Execution.antt =====
-- src/agent/execution.py: the dispatch of a proposed action, its verification, its compensation.
pub mod Undo
use durable_approval_gated_r.Prelude.{
  ℕ, String, Bool, true, false, not, Option, none, some, List, [], ◌∷◌, if◌then◌else◌, str_eq, any,
  mem_nat, length,
}
use durable_approval_gated_r.Act.{unknown_tool, ok, required, Act, pure, raise, lift, ◌>>=◌}
use durable_approval_gated_r.Action.{split_action}
use durable_approval_gated_r.Service.{Status}
use durable_approval_gated_r.App.{
  ScaleReply, ConfigReply, DeployReply, post_scale, post_config, post_deploy,
}
use durable_approval_gated_r.Records.{insert_many}
use durable_approval_gated_r.World.{ToolResult, Compensation, World, request}
use durable_approval_gated_r.Tools.Readonly.{get_service_health, query_db_readonly}
use durable_approval_gated_r.Tools.Mutating.{
  MutationResult, restart_service, scale_service, delete_records, clear_cache, apply_config_change,
  rollback_deployment,
}

-- The keys of `action_parameters` that some tool reads.
pub record Parameters : Type 0 where
  pub replicas : Option ℕ
  pub key : Option String
  pub value : Option String
  pub ids : Option (List ℕ)

abbrev pub no_parameters : Parameters
no_parameters = record { replicas = none; key = none; value = none; ids = none }

abbrev default_scale_replicas : ℕ
default_scale_replicas = 2

abbrev or_default : Option ℕ → ℕ → ℕ
or_default none d = d
or_default (some n) d = n

unfoldable pub dispatch : String → String → Parameters → String → Act World MutationResult
dispatch tool target parameters key =
    if str_eq tool "restart_service"
    then restart_service target key
    else if str_eq tool "scale_service"
    then scale_service target (or_default parameters.replicas default_scale_replicas) key
    else if str_eq tool "clear_cache"
    then clear_cache target key
    else if str_eq tool "apply_config_change"
    then (do
      name ← lift (required "key" parameters.key)
      value ← lift (required "value" parameters.value)
      apply_config_change target name value key)
    else if str_eq tool "rollback_deployment"
    then rollback_deployment target key
    else if str_eq tool "delete_records"
    then delete_records target parameters.ids key
    else raise (unknown_tool tool)

unfoldable pub execute_action : String → Parameters → String → Act World (ToolResult × Compensation)
execute_action proposed_action parameters key = do
  (tool, target) ← lift (split_action proposed_action)
  outcome ← dispatch tool target parameters key
  pure (outcome.result, outcome.compensation)

-- `execution_result.get("deleted_ids", [])`
abbrev deleted_ids : ToolResult → List ℕ
deleted_ids (ToolResult.deleted kind ids count) = ids
deleted_ids (ToolResult.restarted r) = []
deleted_ids (ToolResult.scaled r) = []
deleted_ids (ToolResult.cleared r) = []
deleted_ids (ToolResult.reconfigured r) = []
deleted_ids (ToolResult.rolled_back r) = []

abbrev is_healthy : Status → Bool
is_healthy Status.healthy = true
is_healthy Status.degraded = false
is_healthy Status.unhealthy = false

-- No row of the kind is one of the deleted.
abbrev pub none_remain : String → List ℕ → Act World Bool
none_remain target [] = pure true
none_remain target (id ∷ ids) = do
  remaining ← query_db_readonly (some target) 1000000
  pure (not (any (λ r. mem_nat r.id (id ∷ ids)) remaining))

unfoldable pub verify_action : String → ToolResult → Act World Bool
verify_action proposed_action execution_result = do
  (tool, target) ← lift (split_action proposed_action)
  if str_eq tool "delete_records"
      then none_remain target (deleted_ids execution_result)
      else (do health ← get_service_health target; pure (is_healthy health.status))

pub data RollbackResult : Type 0 where
  not_applied : String → RollbackResult
  scaled_back : ScaleReply → RollbackResult
  config_restored : ConfigReply → RollbackResult
  redeployed : DeployReply → RollbackResult
  reinserted : ℕ → RollbackResult

unfoldable pub apply_compensation : Compensation → Act World RollbackResult
apply_compensation (Compensation.noop reason) = pure (not_applied reason)
apply_compensation (Compensation.scale_service service replicas) = do
  reply ← request service (post_scale replicas)
  pure (scaled_back reply)
apply_compensation (Compensation.apply_config_change service key value) = do
  reply ← request service (post_config key value)
  pure (config_restored reply)
apply_compensation (Compensation.deploy service version) = do
  reply ← request service (post_deploy version)
  pure (redeployed reply)
apply_compensation (Compensation.reinsert_records rows) =
    λ w. (ok (reinserted (length rows)), record w { records = insert_many rows w.records })
