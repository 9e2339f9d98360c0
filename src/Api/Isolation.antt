-- ===== src/Api/Isolation.antt =====
-- What the requests on some runs do to the others: the handlers of src/api/main.py.
use durable_approval_gated_r.Prelude.{
  String, ◌≡◌, Bool, false, Option, none, some, List, [], ◌∷◌, arith, eq_iff, Option-cases, inl,
  inr, Bool-cases, str_eq,
}
use durable_approval_gated_r.Prelude.Dict.{lookup, lookup-insert}
use durable_approval_gated_r.Agent.State.{AgentRuntimeContext, Resume}
use durable_approval_gated_r.Agent.Graph.{Config, Stop, finished, waiting, failed, out_of_fuel}
use durable_approval_gated_r.Api.{
  RunStatusResponse, Thread, Server, CreateRunRequest, is_waiting, decide, respond, create_run,
  submit_decision, sync_registry,
}

-- The requests that change something.
pub data Request : Type 0 where
  creation : CreateRunRequest → Request
  decision_on : String → Resume → Request

-- What requests leave behind, one after the other, answered or not.
unfoldable pub serve_all : Bool → AgentRuntimeContext → List Request → Server → Server
unfolding create_run submit_decision
serve_all reval rt [] server = server
serve_all reval rt (creation body ∷ requests) server =
    serve_all reval rt requests (create_run reval rt body server).1
serve_all reval rt (decision_on run_id decision ∷ requests) server =
    serve_all reval rt requests (submit_decision reval rt run_id decision server).1

-- No request creates the run again.
abbrev pub DoesNotCreate : String → List Request → Type 0
DoesNotCreate run_id [] = Unit
DoesNotCreate run_id (creation body ∷ requests) =
    (str_eq body.run_id run_id ≡ false) × DoesNotCreate run_id requests
DoesNotCreate run_id (decision_on other decision ∷ requests) = DoesNotCreate run_id requests

-- The row of a run and its checkpoint.
abbrev pub IsShown : String → RunStatusResponse → Option Thread → Server → Type 0
IsShown run_id row thread server =
    (lookup run_id server.runs ≡ some row) × (lookup run_id server.threads ≡ thread)

module _ (run_id : String) (row : RunStatusResponse) (thread : Option Thread) where
  respond-IsShown :
      (other : String) (x : Stop × Config) (server : Server)
      → str_eq other run_id ≡ false
      → IsShown run_id row thread server
      → IsShown run_id row thread (respond other x server).1
  unfolding sync_registry
  respond-IsShown other (failed n e, c) server differ (h, k) =
      (h, rw (lookup-insert other run_id _ server.threads, differ) k)
  respond-IsShown other (finished, c) server differ (h, k) = (
    rw (lookup-insert other run_id _ server.runs, differ) h,
    rw (lookup-insert other run_id _ server.threads, differ) k,
  )
  respond-IsShown other (waiting q, c) server differ (h, k) = (
    rw (lookup-insert other run_id _ server.runs, differ) h,
    rw (lookup-insert other run_id _ server.threads, differ) k,
  )
  respond-IsShown other (out_of_fuel n, c) server differ (h, k) = (
    rw (lookup-insert other run_id _ server.runs, differ) h,
    rw (lookup-insert other run_id _ server.threads, differ) k,
  )

  other-IsShown :
      (reval : Bool) (rt : AgentRuntimeContext) (other : String) (decision : Resume)
      (found : Option RunStatusResponse) (server : Server)
      → str_eq other run_id ≡ false
      → IsShown run_id row thread server
      → IsShown run_id row thread (decide reval rt other decision found server).1
  other-IsShown reval rt other decision none server differ h = h
  other-IsShown reval rt other decision (some existing) server differ h =
      elim (Bool-cases (is_waiting existing.status)) [
        | inr quiet ↦ rw quiet h
        | inl busy ↦ elim (Option-cases (lookup other server.threads)) [
          | inl missing ↦ rw (busy, missing) h
          | inr (t, there) ↦ rw (busy, there) (respond-IsShown other _ server differ h)
        ]
      ]

  decision-IsShown :
      (reval : Bool) (rt : AgentRuntimeContext) (other : String) (decision : Resume)
      (server : Server)
      → is_waiting row.status ≡ false
      → IsShown run_id row thread server
      → IsShown run_id row thread (submit_decision reval rt other decision server).1
  unfolding submit_decision
  decision-IsShown reval rt other decision server ended (h, k) =
      elim (Bool-cases (str_eq other run_id)) [
        | inr differ ↦
            other-IsShown reval rt other decision (lookup other server.runs) server differ (h, k)
        | inl same ↦
            let e : other ≡ run_id = ground (arith, eq_iff other run_id, same) in
            rw (e, h, ended) (h, k)
      ]

  -- A run that is shown with a status other than AWAITING_APPROVAL keeps its row and its checkpoint over
  -- any requests, returned or raised: decisions on it, and decisions on and creations of other runs.
  pub ended_run_stays :
      (reval : Bool) (rt : AgentRuntimeContext) (requests : List Request) (server : Server)
      → is_waiting row.status ≡ false
      → DoesNotCreate run_id requests
      → IsShown run_id row thread server
      → IsShown run_id row thread (serve_all reval rt requests server)
  unfolding serve_all create_run
  ended_run_stays reval rt [] server ended fresh h = h
  ended_run_stays reval rt (creation body ∷ requests) server ended (differ, fresh) h =
      ended_run_stays reval rt requests (create_run reval rt body server).1 ended fresh
        (respond-IsShown body.run_id _ server differ h)
  ended_run_stays reval rt (decision_on other decision ∷ requests) server ended fresh h =
      ended_run_stays reval rt requests (submit_decision reval rt other decision server).1 ended
        fresh (decision-IsShown reval rt other decision server ended h)
