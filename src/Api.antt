-- ===== src/Api.antt =====
-- src/api/main.py, src/api/run_registry.py and src/api/schemas.py: the HTTP interface over the graph,
-- with the in-memory run registry. A thread is what the checkpointer has of a run.
pub mod Decisions
pub mod Registry
pub mod Order
pub mod Isolation
use durable_approval_gated_r.Prelude.{
  ℕ, String, Bool, true, false, Option, none, some, List, [], ◌∷◌, map, filter, if◌then◌else◌,
  str_eq,
}
use durable_approval_gated_r.Prelude.Dict.{Dict, lookup, insert}
use durable_approval_gated_r.Act.{Result, ok, raised, http_status, missing_key, map_result, Act}
use durable_approval_gated_r.World.{World}
use durable_approval_gated_r.Policy.{RiskTier}
use durable_approval_gated_r.Agent.State.{
  State, AgentState, AgentRuntimeContext, Resume, initial_state,
}
use durable_approval_gated_r.Agent.Routes.{Node}
use durable_approval_gated_r.Agent.Graph.{
  Config, Stop, finished, waiting, failed, out_of_fuel, enough_fuel, run,
}
use durable_approval_gated_r.Audit.Hook.{AuditRecord, get_run as audit_of}

-- `RunStatusResponse`, and a row of the registry. A run with no status yet is "UNKNOWN".
pub record RunStatusResponse : Type 0 where
  pub run_id : String
  pub status : Option State
  pub scenario_id : Option String
  pub diagnosis : Option String
  pub proposed_action : Option String
  pub risk_tier : Option RiskTier
  pub rationale : Option String
  pub final_state : Option State

-- The checkpoint of a run: its state and the node that is to run next, if it has not ended.
pub record Thread : Type 0 where
  pub state : AgentState
  pub pending : Option Node

pub record Server : Type 0 where
  pub runs : Dict RunStatusResponse
  pub threads : Dict Thread
  pub world : World
  pub audit : List AuditRecord
  pub turn : ℕ

-- `CreateRunRequest` with its run_id; `entries` sets what `initial_state` has.
pub record CreateRunRequest : Type 0 where
  pub run_id : String
  pub scenario_id : Option String
  pub entries : AgentState → AgentState

-- `_to_response`
unfoldable pub to_response : String → AgentState → RunStatusResponse
to_response run_id result = record {
  run_id = run_id;
  status = result.status;
  scenario_id = result.scenario_id;
  diagnosis = result.diagnosis;
  proposed_action = result.proposed_action;
  risk_tier = result.risk_tier_final;
  rationale = result.action_rationale;
  final_state = result.final_state;
}

-- `InMemoryRunRegistry.upsert`: every field but `run_id` is overwritten.
abbrev pub upsert : RunStatusResponse → Dict RunStatusResponse → Dict RunStatusResponse
upsert row runs = insert row.run_id row runs

-- `_sync_registry`
unfoldable pub sync_registry : String → AgentState → Server → Server
unfolding to_response
sync_registry run_id result server = record server {
  runs = upsert (to_response run_id result) server.runs;
}

abbrev pending_after : Stop → Option Node
pending_after finished = none
pending_after (waiting question) = some Node.await_approval
pending_after (failed n e) = some n
pending_after (out_of_fuel n) = some n

-- What an invocation leaves: the checkpoint is written, also where a node raised.
abbrev pub checkpoint : String → Stop × Config → Server → Server
checkpoint run_id (stop, c) server = record server {
  threads = insert run_id (record { state = c.state; pending = pending_after stop }) server.threads;
  world = c.world;
  audit = c.audit;
  turn = c.turn;
}

-- The registry is synchronized and the response built only if the invocation returned.
abbrev pub respond : String → Stop × Config → Server → Result RunStatusResponse × Server
respond run_id (failed n e, c) server = (raised e, checkpoint run_id (failed n e, c) server)
respond run_id (stop, c) server = (
  ok (to_response run_id c.state),
  sync_registry run_id c.state (checkpoint run_id (stop, c) server),
)

abbrev config_of : AgentState → Server → Config
config_of s server = record {
  state = s;
  world = server.world;
  audit = server.audit;
  turn = server.turn;
}

-- `if body.scenario_id`: an empty text counts as none.
abbrev with_scenario : Option String → AgentState → AgentState
with_scenario none s = s
with_scenario (some id) s = if str_eq id "" then s else record s { scenario_id = some id }

-- The input of a run is merged into the thread's state, if there is one already.
abbrev input_state : CreateRunRequest → Option Thread → AgentState
input_state body none = with_scenario body.scenario_id (body.entries (initial_state body.run_id))
input_state body (some t) =
    with_scenario body.scenario_id (body.entries (record t.state { run_id = body.run_id }))

-- A thread that has ended has no node to run.
abbrev resumed : Bool → AgentRuntimeContext → Resume → Option Node → Config → Stop × Config
resumed reval rt decision none c = (finished, c)
resumed reval rt decision (some n) c = run enough_fuel reval rt n (some decision) c

abbrev pub is_waiting : Option State → Bool
is_waiting (some State.awaiting_approval) = true
is_waiting s = false

-- `POST /runs`
unfoldable pub create_run :
    Bool → AgentRuntimeContext → CreateRunRequest → Act Server RunStatusResponse
unfolding to_response sync_registry
create_run reval rt body server =
    let s = input_state body (lookup body.run_id server.threads) in
    respond body.run_id (run enough_fuel reval rt Node.diagnose none (config_of s server)) server

-- `InMemoryRunRegistry.list_pending_approval`
abbrev pub list_pending_approval : Dict RunStatusResponse → List RunStatusResponse
list_pending_approval runs = filter (λ r. is_waiting r.status) (map (λ p. p.1) runs)

-- `GET /runs/pending-approval`
unfoldable pub pending_approval : Server → List RunStatusResponse
pending_approval server = list_pending_approval server.runs

abbrev or_404 {ℓ} : {A : Type ℓ} → Option A → Result A
or_404 none = raised (http_status 404)
or_404 (some a) = ok a

-- `GET /runs/{run_id}`
unfoldable pub get_run : String → Act Server RunStatusResponse
get_run run_id server = (or_404 (lookup run_id server.runs), server)

abbrev resume_thread :
    Bool → AgentRuntimeContext → String → Resume → Option Thread → Act Server RunStatusResponse
resume_thread reval rt run_id decision none server = (raised (missing_key run_id), server)
resume_thread reval rt run_id decision (some t) server =
    respond run_id (resumed reval rt decision t.pending (config_of t.state server)) server

abbrev pub decide :
    Bool
    → AgentRuntimeContext
    → String
    → Resume
    → Option RunStatusResponse
    → Act Server RunStatusResponse
decide reval rt run_id decision none server = (raised (http_status 404), server)
decide reval rt run_id decision (some existing) server =
    if is_waiting existing.status
    then resume_thread reval rt run_id decision (lookup run_id server.threads) server
    else (raised (http_status 409), server)

-- `POST /runs/{run_id}/decision`
unfoldable pub submit_decision :
    Bool → AgentRuntimeContext → String → Resume → Act Server RunStatusResponse
unfolding to_response sync_registry
submit_decision reval rt run_id decision server =
    decide reval rt run_id decision (lookup run_id server.runs) server

-- `GET /runs/{run_id}/audit`
unfoldable pub get_audit : String → Act Server (List AuditRecord)
get_audit run_id server =
    (map_result (λ row. audit_of run_id server.audit) (or_404 (lookup run_id server.runs)), server)
