-- ===== src/Lib.antt =====
-- A remediation agent with a durable approval gate, modelled from its Python source: a LangGraph
-- workflow diagnoses a sandbox of services, proposes one action, has its risk classified, suspends
-- for a human where the risk is not low, checks for drift, executes, verifies, and undoes or
-- replans.
--
-- The parts and how they interact:
-- - Service (src/env/mock_service/state.py) is the state of one service and its operations, one
--   function per method; App (src/env/mock_service/app.py) the routes over it, from a state to an
--   answer or an HTTP error and a state. App/Invariant and App/Repair hold its laws.
-- - Records and World (src/tools/context.py) are the records repository, the ledger of executed
--   actions, and the sandbox that the tools share: one service state for each client, the ledger,
--   the records. Records/Postgres is the repository over a database, whose statements are a
--   parameter; Records/Table, Records/Lookup and Records/Refines relate the two, and
--   Records/Reinsert and Records/Own are about rows that are deleted and inserted again. Action
--   (src/tools/registry.py) has the names of tools and the form `tool:target`.
-- - Tools (src/tools/readonly.py, src/tools/mutating.py) calls App through `World.request`;
--   `run_idempotent` wraps each mutating tool. Execution (src/agent/execution.py) dispatches a
--   proposed action to a tool, verifies it, and applies its compensation.
-- - Observations (src/agent/observations.py, src/env/registry.py) is the diagnostic sweep,
--   Fingerprint (src/revalidation/fingerprint.py) what of it counts for an action, Policy
--   (src/risk/policy.py) the deterministic part of the risk tier.
-- - Agent/State (src/agent/state.py, src/agent/runtime.py), Agent/Nodes and Agent/Routes
--   (src/agent/nodes.py) and Agent/Graph (src/agent/graph.py) are the workflow: each node is a
--   function from the state to an update in the sandbox, each router a function from the state to
--   the next node. The modules beside them hold the laws: Bound and Termination, Gate and Effects,
--   Attempts, Rejection, Flag, on the flag of the redundancy floor, and Keys, on the keys of the
--   state that are read by subscript.
-- - Audit/Hook (src/audit/hook.py, src/audit/store.py) is the record that each node leaves,
--   Audit/Replay (src/audit/replay.py) the check of a run's records; Audit/Chain and
--   Audit/Complete hold the laws.
-- - Api (src/api/main.py, src/api/run_registry.py, src/api/schemas.py) is the HTTP interface: the
--   handlers over the in-memory registry, the checkpoint of each run's thread, and the sandbox.
--   Api/Decisions and Api/Isolation hold its laws. Api/Registry is the run registry over a
--   database, whose statements are a parameter, and Api/Order relates the two registries.
-- - Eval/Sandbox (src/eval/runner.py, src/chaos/agent_process.py) builds a sandbox and has the
--   scripted and the heuristic models. Eval/Faults (src/env/fault_injector.py, and the staleness
--   changes of src/eval/runner.py) injects faults; Eval/Validation
--   (src/eval/scenario_validation.py) is the check of scenarios, and Eval/Injectable,
--   Eval/Changes, Eval/Staleness, Eval/Accepted and Eval/Proposable relate it to what it stands
--   for. Eval/Metrics and Eval/Confusion (src/eval/metrics.py) have the rates over run records,
--   and Eval/Rates their laws.
-- - Eval/Scenario (src/eval/runner.py) drives one scenario from its fault to its record,
--   Eval/RunSuite (src/eval/run_suite.py) the scenarios of each ablation mode, with the files that
--   a crash leaves and a resumed run reads. Eval/Approvals, Eval/Ungated and Eval/Compliance hold
--   the laws of the first, Eval/AllFiles, Eval/ResultFiles and Eval/Resumption those of the
--   second; Eval/GateRate is about both. Agent/Rule is the rule for invariants of an invocation.
--   Eval/Summary (src/eval/metrics.py, src/eval/run_suite.py) has all the metrics of a mode, the
--   comparison of the modes and the summary of the suite, and Eval/Sound its law.
-- - Eval/Reset (src/env/db/reset.py) fills the table of records again, over a driver.
-- - Eval/LoadTest (src/eval/load_test.py) runs many tasks over one sandbox, whose super-steps a
--   schedule puts in order; Eval/LoadTest/Phases, Schedules and Runs hold its laws.
-- - Llm (src/agent/diagnosis.py, src/risk/classifier.py, src/llm/ollama_client.py) has the three
--   backends of the reasoner and of the risk classifier over the chat services; Llm/Backends
--   (src/eval/runner.py, src/eval/run_suite.py) is the choice among them.
-- - Tests applies the theorems at concrete inputs.
--
-- Conventions. A call that may raise returns a `Result`; a stateful one is an `Act S A`, from a
-- state to a result and a state, so an effect before an exception stays. Python's dictionaries are
-- association lists in the order of insertion. An entry of the workflow's state that a node may
-- find missing is an `Option`; reading it by `state[key]` raises `missing_key`. Levels and error
-- rates are native natural numbers (the source has them as floats, and its constants are whole;
-- the error rate counts in hundredths); replica counts are natural numbers. Texts that only people
-- read (log lines, rationales, reasons to replan) are data types or the parts they are built from.
--
-- One super-step of the graph runs one node, merges its update into the state, writes the audit
-- record, and follows one edge. A node that raises leaves the state as it was, not the sandbox. A
-- run carries fuel: `enough_fuel` is 30 super-steps, and an invocation takes 26 at most, since
-- `replan` counts to three (Agent/Termination). The loop of approvals has `enough_approvals`,
-- which is three: each replanning but the last can lead to one more suspension (Eval/Approvals). A
-- run of the load test takes five super-steps to its suspension and six to its end, which its
-- schedules must give it.
--
-- Parameters of the model: the reasoner and the risk classifier (a language model, which may
-- answer differently at each turn or fail), the digest of the fingerprint's fields (SHA-256 of
-- their JSON text) and the clock. The chain of audit records asks that the clock never goes back.
-- The database under `PostgresRecordsRepository` is a parameter too, `Driver`, with what SQL says
-- of its statements in `IsSql`; so are those under `PostgresRunRegistry` and `reset_database`.
-- What the metrics read of a scenario is one. The chat services, JSON and Pydantic's validation
-- are parameters of Llm, the prompts too.
--
-- Not modelled: the command line of the suite and how its summary is written, the Postgres audit
-- store and the Postgres ledger (SQL), the killed processes and the trials of the chaos harness,
-- which run on them, `state_recovery_correctness`, which reads its results by a key that they do
-- not have, what the workflow does with OpenAI's parameters that are JSON but no object, the
-- checkpointers, the counts of tokens and calls, the measurements of the load test (time, memory,
-- connections) and its semaphore, the statistics of time and cost beside the rates, the widths of
-- printed tables, reports, the frontend, and the pause of `mark`. The transport between tools and
-- services is a function call that loses nothing; the nodes of one run go one at a time, and in
-- the load test, where runs interleave, so do their super-steps.
pub mod Prelude
pub mod Act
pub mod Action
pub mod Service
pub mod App
pub mod Records
pub mod World
pub mod Tools
pub mod Observations
pub mod Fingerprint
pub mod Policy
pub mod Execution
pub mod Agent
pub mod Audit
pub mod Api
pub mod Llm
pub mod Eval
mod Tests
