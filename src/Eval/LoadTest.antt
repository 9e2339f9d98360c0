-- ===== src/Eval/LoadTest.antt =====
-- src/eval/load_test.py: many runs over one sandbox and one audit log, suspended together and then
-- approved in a burst. A schedule says which run takes the next super-step; the measurements of time,
-- memory and connections are left out.
pub mod Phases
pub mod Schedules
pub mod Runs
use durable_approval_gated_r.Prelude.{
  ℕ, zero, suc, ◌+◌, String, Bool, true, false, ◌==◌, Option, none, some, List, [], ◌∷◌,
  if◌then◌else◌, or_else,
}
use durable_approval_gated_r.Act.{Error, Result, ok, raised}
use durable_approval_gated_r.World.{World}
use durable_approval_gated_r.Observations.{Observations}
use durable_approval_gated_r.Policy.{medium, Situational}
use durable_approval_gated_r.Fingerprint.{Fields}
use durable_approval_gated_r.Execution.{no_parameters}
use durable_approval_gated_r.Agent.State.{
  State, ReplanReason, Proposal, Classification, AgentState, AgentRuntimeContext, Resume,
  initial_state,
}
use durable_approval_gated_r.Agent.Routes.{Node, goto, end}
use durable_approval_gated_r.Agent.Graph.{
  Config, Step, moved, suspended, crashed, Stop, finished, waiting, failed, step,
}
use durable_approval_gated_r.Audit.Hook.{AuditRecord}
use durable_approval_gated_r.Eval.Sandbox.{build_sandbox}
use durable_approval_gated_r.Eval.Scenario.{is_waiting, approval_by}

-- `_LoadTestReasoner.diagnose`
unfoldable pub load_test_diagnose : ℕ → Observations → Result String
load_test_diagnose turn observations = ok "load-test stub diagnosis"

-- `_LoadTestReasoner.propose_action`
unfoldable pub load_test_propose : ℕ → Observations → String → Option ReplanReason → Result Proposal
load_test_propose turn observations diagnosis context = ok (record {
  tool = "restart_service";
  target = "service_a";
  rationale = "load-test stub";
  parameters = no_parameters;
})

-- `_LoadTestRiskClassifier.classify`
unfoldable pub load_test_classify :
    ℕ → String → String → Option String → Option Situational → Result Classification
load_test_classify turn action diagnosis rationale situational =
    ok (record { tier = medium; rationale = "load-test stub, always medium so every run suspends" })

-- The context of `run_load_test`; the digest and the clock are arguments.
abbrev pub load_test_context : (Fields → String) → (ℕ → ℕ) → AgentRuntimeContext
load_test_context digest clock = record {
  diagnose = load_test_diagnose;
  propose_action = load_test_propose;
  classify = load_test_classify;
  digest = digest;
  clock = clock;
}

-- What the runs share: the sandbox, the audit log, and the count of super-steps.
pub record Shared : Type 0 where
  pub world : World
  pub audit : List AuditRecord
  pub turn : ℕ

-- A coroutine of `asyncio.gather`, an invocation of the graph: at a node, or stopped.
pub data Task : Type 0 where
  running : Node → Option Resume → AgentState → Task
  stopped : Stop → AgentState → Task

abbrev pub config_of : AgentState → Shared → Config
config_of s sh = record { state = s; world = sh.world; audit = sh.audit; turn = sh.turn }

abbrev pub shared_of : Config → Shared
shared_of c = record { world = c.world; audit = c.audit; turn = c.turn }

abbrev pub after_step : Node → Step → Task × Shared
after_step n (moved (goto m) c) = (running m none c.state, shared_of c)
after_step n (moved end c) = (stopped finished c.state, shared_of c)
after_step n (suspended question c) = (stopped (waiting question) c.state, shared_of c)
after_step n (crashed e c) = (stopped (failed n e) c.state, shared_of c)

-- One super-step of a task. A task that has stopped stays as it is.
unfoldable pub advance : AgentRuntimeContext → Task → Shared → Task × Shared
unfolding step
advance rt (running n r s) sh = after_step n (step true rt n r (config_of s sh))
advance rt (stopped stop s) sh = (stopped stop s, sh)

abbrev pub put_task : ℕ → Task → (ℕ → Task) → ℕ → Task
put_task i task tasks j = if i == j then task else tasks j

-- The tasks and what they share, after the super-steps that a schedule gives them.
unfoldable pub gather : AgentRuntimeContext → List ℕ → (ℕ → Task) × Shared → (ℕ → Task) × Shared
unfolding advance
gather rt [] (tasks, sh) = (tasks, sh)
gather rt (i ∷ schedule) (tasks, sh) =
    let (task, sh') = advance rt (tasks i) sh in gather rt schedule (put_task i task tasks, sh')

-- `"__interrupt__" in r`
abbrev pub is_suspended : Task → Bool
is_suspended (running n r s) = false
is_suspended (stopped stop s) = is_waiting stop

abbrev is_completed_state : Option State → Bool
is_completed_state (some State.completed) = true
is_completed_state s = false

abbrev state_of : Task → AgentState
state_of (running n r s) = s
state_of (stopped stop s) = s

-- `r.get("final_state") == "COMPLETED"`
abbrev pub ended_completed : Task → Bool
ended_completed task = is_completed_state (state_of task).final_state

-- `sum(1 for r in results if test(r))`, of the first n tasks.
abbrev pub count_tasks : (Task → Bool) → ℕ → (ℕ → Task) → ℕ
count_tasks test zero tasks = 0
count_tasks test (suc n) tasks =
    let rest = count_tasks test n tasks in if test (tasks n) then rest + 1 else rest

-- `LoadTestReport`, less the measurements.
pub record LoadTestReport : Type 0 where
  pub n : ℕ
  pub suspended_count : ℕ
  pub all_suspended : Bool
  pub completed_count : ℕ
  pub state_intact : Bool

-- `start_workflow(graph, run_id, {}, context)`
abbrev pub start_task : (ℕ → String) → ℕ → Task
start_task run_id i = running Node.diagnose none (initial_state (run_id i))

-- `_resume_one`: a suspended run's thread goes on at the node that asked.
abbrev pub resume_task : Task → Task
resume_task (stopped (waiting question) s) =
    running Node.await_approval (some (approval_by "load-test")) s
resume_task (stopped finished s) = stopped finished s
resume_task (stopped (failed n e) s) = stopped (failed n e) s
resume_task (stopped (Stop.out_of_fuel n) s) = stopped (Stop.out_of_fuel n) s
resume_task (running n r s) = running n r s

abbrev pub report_of : ℕ → (ℕ → Task) → (ℕ → Task) → LoadTestReport
report_of n results resumed =
    let suspended_count = count_tasks is_suspended n results in
    let completed_count = count_tasks ended_completed n resumed in
    record {
      n = n;
      suspended_count = suspended_count;
      all_suspended = suspended_count == n;
      completed_count = completed_count;
      state_intact = completed_count == n;
    }

abbrev pub error_of : Task → Option Error
error_of (stopped (failed n e) s) = some e
error_of (stopped finished s) = none
error_of (stopped (waiting question) s) = none
error_of (stopped (Stop.out_of_fuel n) s) = none
error_of (running n r s) = none

-- An exception of one of the first n tasks, which `asyncio.gather` raises.
abbrev pub failure : ℕ → (ℕ → Task) → Option Error
failure zero tasks = none
failure (suc n) tasks = or_else (failure n tasks) (error_of (tasks n))

abbrev pub unless_raised {ℓ} : {A : Type ℓ} → Option Error → Result A → Result A
unless_raised none r = r
unless_raised (some e) r = raised e

-- `_run`, over a schedule for the starts and one for the burst.
unfoldable pub run_load_test :
    AgentRuntimeContext → (ℕ → String) → ℕ → List ℕ → List ℕ → World → Result LoadTestReport
unfolding gather
run_load_test rt run_id n starts burst w =
    let (results, sh) =
      gather rt starts (start_task run_id, record { world = w; audit = []; turn = 0 }) in
    let (resumed, sh') = gather rt burst ((λ i. resume_task (results i)), sh) in
    unless_raised (failure n results)
      (unless_raised (failure n resumed) (ok (report_of n results resumed)))
