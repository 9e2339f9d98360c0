-- ===== src/Tests/Registry.antt =====
-- A table of runs that does what SQL says, kept in the order of the last changes.
use mathlib.Core.List.Perm
use durable_approval_gated_r.Prelude.{String, refl, none, some, List, [], ◌∷◌, ◌++◌, filter}
use durable_approval_gated_r.Prelude.Dict.{Dict, lookup}
use durable_approval_gated_r.Agent.State.{State}
use durable_approval_gated_r.Api.{RunStatusResponse, is_waiting}
use durable_approval_gated_r.Api.Registry.{
  Driver, IsSql, others, find_run, Call, upsert_call, get_call, list_call, answers, sql_answers,
}
use durable_approval_gated_r.Api.Order.{Matches, SameAnswers, same_runs}

abbrev log : Driver
log = record {
  Db = List RunStatusResponse;
  rows = λ db. db;
  upsert_row = λ r db. others r.run_id db ++ r ∷ [];
  select_run = λ id db. find_run id db;
  select_waiting = λ db. filter (λ r. is_waiting r.status) db;
}

log-IsSql : IsSql log
log-IsSql = record {
  upsert_row_lem = λ r db. refl;
  select_run_lem = λ id db. refl;
  select_waiting_lem = λ db. refl;
}

abbrev run_at : String → State → RunStatusResponse
run_at id status = record {
  run_id = id;
  status = some status;
  scenario_id = none;
  diagnosis = some "stub";
  proposed_action = some "restart_service:service_a";
  risk_tier = none;
  rationale = none;
  final_state = none;
}

abbrev table : List RunStatusResponse
table = run_at "a" State.awaiting_approval ∷ []

abbrev registry : Dict RunStatusResponse
registry = ("a", run_at "a" State.awaiting_approval) ∷ []

-- The first run is replanned, and waits again behind the second.
abbrev calls : List Call
calls =
    upsert_call (run_at "b" State.awaiting_approval)
    ∷ upsert_call (run_at "a" State.awaiting_approval)
    ∷ list_call
    ∷ upsert_call (run_at "b" State.completed)
    ∷ get_call "b"
    ∷ get_call "c"
    ∷ list_call
    ∷ []

table-Matches : Matches log table registry
unfolding find_run lookup
table-Matches = (Perm.refl _, (λ id. refl), (refl, refl, tt))

same_runs_example : SameAnswers (sql_answers log calls table) (answers calls registry)
same_runs_example = same_runs log log-IsSql calls table registry table-Matches
