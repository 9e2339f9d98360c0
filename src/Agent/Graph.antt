-- ===== src/Agent/Graph.antt =====
-- src/agent/graph.py: the nodes under `with_audit`, one super-step of the graph, and the two entry
-- points. LangGraph runs one node at a time here, merges its update, and follows one edge.
use durable_approval_gated_r.Prelude.{ℕ, zero, suc, ◌+◌, String, Bool, Option, none, some, List}
use durable_approval_gated_r.Act.{Error, Result, ok, raised, Act, required, and_then}
use durable_approval_gated_r.Policy.{RiskTier}
use durable_approval_gated_r.World.{World}
use durable_approval_gated_r.Agent.State.{AgentState, Update, merge, AgentRuntimeContext, Resume}
use durable_approval_gated_r.Agent.Nodes
use durable_approval_gated_r.Agent.Routes.{Node, Next, goto, end, next_node}
use durable_approval_gated_r.Audit.Hook.{AuditRecord, audit_record, store_record}

-- What survives between two super-steps: the checkpoint, the sandbox, and the audit log.
pub record Config : Type 0 where
  pub state : AgentState
  pub world : World
  pub audit : List AuditRecord
  pub turn : ℕ

-- The value that `interrupt` shows to the approver.
pub record Interrupt : Type 0 where
  pub run_id : String
  pub diagnosis : String
  pub proposed_action : String
  pub risk_tier : RiskTier

pub data NodeResult : Type 0 where
  updated : Update → NodeResult
  interrupted : Interrupt → NodeResult

abbrev pub interrupt_value : AgentState → Result Interrupt
interrupt_value s = and_then (required "diagnosis" s.diagnosis) (λ diagnosis.
    and_then (required "proposed_action" s.proposed_action) (λ action.
      and_then (required "risk_tier_final" s.risk_tier_final) (λ tier. ok (record {
        run_id = s.run_id;
        diagnosis = diagnosis;
        proposed_action = action;
        risk_tier = tier;
      }))))

abbrev pub as_updated : Result Update × World → Result NodeResult × World
as_updated (ok u, w) = (ok (updated u), w)
as_updated (raised e, w) = (raised e, w)

abbrev pub answered :
    AgentRuntimeContext
    → ℕ
    → AgentState
    → Option Resume
    → Interrupt
    → World
    → Result NodeResult × World
answered rt turn s none question w = (ok (interrupted question), w)
answered rt turn s (some r) question w = as_updated (Nodes.take_decision rt turn s r w)

abbrev pub ask :
    AgentRuntimeContext
    → ℕ
    → AgentState
    → Option Resume
    → Result Interrupt
    → World
    → Result NodeResult × World
ask rt turn s r (ok question) w = answered rt turn s r question w
ask rt turn s r (raised e) w = (raised e, w)

-- The node function that `NODES` has for a name. Only `await_approval` reads the resume value.
unfoldable pub run_node :
    Node → AgentRuntimeContext → ℕ → Option Resume → AgentState → Act World NodeResult
run_node Node.diagnose rt turn r s w = as_updated (Nodes.diagnose rt turn s w)
run_node Node.propose_action rt turn r s w = as_updated (Nodes.propose_action rt turn s w)
run_node Node.classify_risk rt turn r s w = as_updated (Nodes.classify_risk rt turn s w)
run_node Node.mark_awaiting_approval rt turn r s w =
    as_updated (Nodes.mark_awaiting_approval rt turn s w)
run_node Node.await_approval rt turn r s w = ask rt turn s r (interrupt_value s) w
run_node Node.revalidate rt turn r s w = as_updated (Nodes.revalidate rt turn s w)
run_node Node.prepare_execution rt turn r s w = as_updated (Nodes.prepare_execution rt turn s w)
run_node Node.execute rt turn r s w = as_updated (Nodes.execute rt turn s w)
run_node Node.verify rt turn r s w = as_updated (Nodes.verify rt turn s w)
run_node Node.rolling_back rt turn r s w = as_updated (Nodes.rolling_back rt turn s w)
run_node Node.rolled_back rt turn r s w = as_updated (Nodes.rolled_back rt turn s w)
run_node Node.replan rt turn r s w = as_updated (Nodes.replan rt turn s w)
run_node Node.escalate rt turn r s w = as_updated (Nodes.escalate rt turn s w)
run_node Node.completed rt turn r s w = as_updated (Nodes.completed rt turn s w)

pub data Step : Type 0 where
  moved : Next → Config → Step
  suspended : Interrupt → Config → Step
  crashed : Error → Config → Step

-- `with_audit`: the record is written only once the node has returned.
abbrev pub commit : AgentRuntimeContext → Config → World → Update → Config
commit rt c w u = record {
  state = merge c.state u;
  world = w;
  audit = store_record (audit_record (rt.clock c.turn) c.state u) c.audit;
  turn = c.turn + 1;
}

abbrev pub follow : Result Next → Config → Step
follow (ok n) c = moved n c
follow (raised e) c = crashed e c

abbrev pub settle : Bool → AgentRuntimeContext → Node → Config → Result NodeResult × World → Step
settle reval rt n c (ok (updated u), w) =
    follow (next_node reval n (merge c.state u)) (commit rt c w u)
settle reval rt n c (ok (interrupted question), w) = suspended question (record c { world = w })
settle reval rt n c (raised e, w) = crashed e (record c { world = w })

-- One super-step. A node that raises leaves the checkpoint as it was, not the sandbox.
unfoldable pub step : Bool → AgentRuntimeContext → Node → Option Resume → Config → Step
step reval rt n r c = settle reval rt n c (run_node n rt c.turn r c.state c.world)

pub data Stop : Type 0 where
  finished : Stop
  waiting : Interrupt → Stop
  failed : Node → Error → Stop
  out_of_fuel : Node → Stop

-- What follows a super-step; `next` goes on at a node.
abbrev pub proceed : Node → Step → (Node → Config → Stop × Config) → Stop × Config
proceed n (moved (goto m) c) next = next m c
proceed n (moved end c) next = (finished, c)
proceed n (suspended question c) next = (waiting question, c)
proceed n (crashed e c) next = (failed n e, c)

-- `ainvoke`: super-steps until the graph ends, suspends or raises. The resume value is for the first
-- node alone.
unfoldable pub run : ℕ → Bool → AgentRuntimeContext → Node → Option Resume → Config → Stop × Config
run zero reval rt n r c = (out_of_fuel n, c)
run (suc fuel) reval rt n r c =
    proceed n (step reval rt n r c) (λ m c'. run fuel reval rt m none c')

-- More super-steps than any invocation takes.
abbrev pub enough_fuel : ℕ
enough_fuel = 30

unfoldable pub start_workflow : Bool → AgentRuntimeContext → Config → Stop × Config
start_workflow reval rt c = run enough_fuel reval rt Node.diagnose none c

-- The thread of a suspended run goes on at `await_approval`.
unfoldable pub resume_workflow : Bool → AgentRuntimeContext → Resume → Config → Stop × Config
resume_workflow reval rt decision c = run enough_fuel reval rt Node.await_approval (some decision) c
