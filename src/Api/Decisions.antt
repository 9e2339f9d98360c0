-- ===== src/Api/Decisions.antt =====
-- When a decision is taken, and what the registry shows: the handlers of src/api/main.py.
use durable_approval_gated_r.Prelude.{
  String, ◌≡◌, refl, Bool, false, Option, none, some, arith, eq_iff, Option-cases, inl, inr,
  Bool-cases,
}
use durable_approval_gated_r.Prelude.Dict.{lookup, lookup-insert}
use durable_approval_gated_r.Act.{ok, raised, http_status, missing_key, raised-ne-ok}
use durable_approval_gated_r.Agent.State.{AgentRuntimeContext, Resume}
use durable_approval_gated_r.Agent.Graph.{Config, Stop, finished, waiting, failed, out_of_fuel}
use durable_approval_gated_r.Api.{
  RunStatusResponse, Server, CreateRunRequest, is_waiting, decide, checkpoint, respond, create_run,
  get_run, submit_decision, sync_registry,
}

-- What is answered is what the registry shows from then on.
respond-get_run :
    (run_id : String) (x : Stop × Config) (server server' : Server) (row : RunStatusResponse)
    → respond run_id x server ≡ (ok row, server')
    → get_run run_id server' ≡ (ok row, server')
unfolding get_run sync_registry
respond-get_run run_id (failed n e, c) server server' row h =
    absurd (raised-ne-ok e (checkpoint run_id (failed n e, c) server) server' row h)
respond-get_run run_id (finished, c) server server' row h =
    ground (arith, lookup-insert run_id run_id row server.runs, eq_iff run_id run_id)
respond-get_run run_id (waiting q, c) server server' row h =
    ground (arith, lookup-insert run_id run_id row server.runs, eq_iff run_id run_id)
respond-get_run run_id (out_of_fuel n, c) server server' row h =
    ground (arith, lookup-insert run_id run_id row server.runs, eq_iff run_id run_id)

get_run-lookup :
    (run_id : String) (server : Server) (row : RunStatusResponse)
    → get_run run_id server ≡ (ok row, server)
    → lookup run_id server.runs ≡ some row
unfolding get_run
get_run-lookup run_id server row h = ground arith

-- A run that has been created is shown from then on as its creation was answered.
create_run-get_run :
    (reval : Bool) (rt : AgentRuntimeContext) (body : CreateRunRequest) (server server' : Server)
    (row : RunStatusResponse)
    → create_run reval rt body server ≡ (ok row, server')
    → get_run body.run_id server' ≡ (ok row, server')
unfolding create_run
create_run-get_run reval rt body server server' row h =
    respond-get_run body.run_id _ server server' row h

decide-get_run :
    (reval : Bool) (rt : AgentRuntimeContext) (run_id : String) (decision : Resume)
    (found : Option RunStatusResponse) (server server' : Server) (row : RunStatusResponse)
    → decide reval rt run_id decision found server ≡ (ok row, server')
    → get_run run_id server' ≡ (ok row, server')
decide-get_run reval rt run_id decision none server server' row h =
    absurd (raised-ne-ok (http_status 404) server server' row h)
decide-get_run reval rt run_id decision (some existing) server server' row h =
    elim (Bool-cases (is_waiting existing.status)) [
      | inr quiet ↦ absurd (raised-ne-ok (http_status 409) server server' row (rw quiet at h))
      | inl busy ↦ elim (Option-cases (lookup run_id server.threads)) [
        | inl missing ↦
            absurd (raised-ne-ok (missing_key run_id) server server' row (rw (busy, missing) at h))
        | inr (t, there) ↦ respond-get_run run_id _ server server' row (rw (busy, there) at h)
      ]
    ]

-- Once a decision has been answered with a status other than AWAITING_APPROVAL, the registry shows the
-- run as answered, and any further decision on it is refused with 409 and changes nothing.
pub decided_once :
    (reval : Bool) (rt : AgentRuntimeContext) (run_id : String) (decision another : Resume)
    (server server' : Server) (row : RunStatusResponse)
    → submit_decision reval rt run_id decision server ≡ (ok row, server')
    → is_waiting row.status ≡ false
    → (get_run run_id server' ≡ (ok row, server'))
      × (submit_decision reval rt run_id another server' ≡ (raised (http_status 409), server'))
unfolding submit_decision
decided_once reval rt run_id decision another server server' row h quiet =
    let shown =
      decide-get_run reval rt run_id decision (lookup run_id server.runs) server server' row h in
    (shown, rw (get_run-lookup run_id server' row shown, quiet) refl)
