-- ===== src/World.antt =====
-- src/tools/context.py: `ToolContext`, the sandbox that the tools reach: the mock services behind their
-- HTTP clients, the `executed_actions` ledger, and the `records` table. A request is answered by the
-- route of src/env/mock_service/app.py, as over the in-process transport of the evaluation harness.
use durable_approval_gated_r.Prelude.{ℕ, String, Option, none, some, List}
use durable_approval_gated_r.Prelude.Dict.{Dict, lookup, insert}
use durable_approval_gated_r.Act.{unknown_service, Result, raised, Act}
use durable_approval_gated_r.Service.{ServiceState}
use durable_approval_gated_r.App.{RestartReply, ScaleReply, ConfigReply, RollbackReply, DiskReply}
use durable_approval_gated_r.Records.{Row, Repository}

-- The `result` of a mutating tool: the reply of its request, or the deleted records.
pub data ToolResult : Type 0 where
  restarted : RestartReply → ToolResult
  scaled : ScaleReply → ToolResult
  deleted : String → List ℕ → ℕ → ToolResult
  cleared : DiskReply → ToolResult
  reconfigured : ConfigReply → ToolResult
  rolled_back : RollbackReply → ToolResult

-- The `compensation` that a mutating tool registers, a constructor for each `type`.
pub data Compensation : Type 0 where
  noop : String → Compensation
  scale_service : String → ℕ → Compensation
  apply_config_change : String → String → Option String → Compensation
  deploy : String → String → Compensation
  reinsert_records : List Row → Compensation

-- The `args` column of the ledger.
pub data ToolArgs : Type 0 where
  on_service : String → ToolArgs
  to_replicas : String → ℕ → ToolArgs
  on_records : String → Option (List ℕ) → ToolArgs
  to_config : String → String → String → ToolArgs

-- A row of `executed_actions`.
pub record Execution : Type 0 where
  pub tool_name : String
  pub args : ToolArgs
  pub result : ToolResult
  pub compensation : Compensation

pub record World : Type 0 where
  pub clients : Dict ServiceState
  pub store : Dict Execution
  pub records : Repository

abbrev answer {ℓ} : {A : Type ℓ} → String → Result A × ServiceState → World → Result A × World
answer service (r, s) w = (r, record w { clients = insert service s w.clients })

abbrev send {ℓ} :
    {A : Type ℓ} → String → Act ServiceState A → Option ServiceState → World → Result A × World
send service handler none w = (raised (unknown_service service), w)
send service handler (some s) w = answer service (handler s) w

-- `ctx.client(service)`, a request to it, and `raise_for_status`.
unfoldable pub request {ℓ} : {A : Type ℓ} → String → Act ServiceState A → Act World A
request service handler w = send service handler (lookup service w.clients) w

-- `InMemoryExecutedActionsStore.get`
unfoldable pub store_get : String → World → Option Execution
store_get key w = lookup key w.store

abbrev or_insert : Option Execution → String → Execution → Dict Execution → Dict Execution
or_insert none key row rows = insert key row rows
or_insert (some old) key row rows = rows

-- `InMemoryExecutedActionsStore.record`, by `setdefault`; `ON CONFLICT DO NOTHING` in Postgres.
unfoldable pub store_record : String → Execution → World → World
store_record key row w = record w { store = or_insert (lookup key w.store) key row w.store }
