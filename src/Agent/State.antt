-- ===== src/Agent/State.antt =====
-- src/agent/state.py and src/agent/runtime.py: the persisted state of a run, the partial updates that
-- the nodes return, and the dependencies that are injected into them.
use durable_approval_gated_r.Prelude.{ℕ, String, Bool, Option, none, some}
use durable_approval_gated_r.Act.{Result}
use durable_approval_gated_r.World.{ToolResult, Compensation}
use durable_approval_gated_r.Observations.{Observations}
use durable_approval_gated_r.Fingerprint.{Fields, InvalidReason}
use durable_approval_gated_r.Policy.{RiskTier, Situational}
use durable_approval_gated_r.Execution.{Parameters, RollbackResult}

abbrev pub max_replan_cycles : ℕ
max_replan_cycles = 3

-- `State`, the named states.
pub data State : Type 0 where
  created diagnosing action_proposed risk_classified awaiting_approval revalidating : State
  replanning executing verifying rolling_back rolled_back escalated completed : State

pub data ApprovalDecision : Type 0 where
  approved edited rejected timeout : ApprovalDecision

-- The texts of `_replan_reason`, each with the action that it names.
pub data ReplanReason : Type 0 where
  not_valid : Option String → InvalidReason → ReplanReason
  reviewer_rejected environment_changed did_not_fix not_resolved : Option String → ReplanReason

-- `AgentState`: a key that is absent, or `None`, is `none`; an absent `replan_cycles` is read as 0. Only
-- `state_fingerprint`, which is read by subscript where it may be `None`, has the two apart.
pub record AgentState : Type 0 where
  pub run_id : String
  pub scenario_id : Option String
  pub status : Option State
  pub observations : Option Observations
  pub diagnosis : Option String
  pub proposed_action : Option String
  pub action_parameters : Option Parameters
  pub action_rationale : Option String
  pub state_fingerprint : Option (Option String)
  pub invalid_proposal_reason : Option InvalidReason
  pub risk_tier_llm : Option RiskTier
  pub risk_tier_final : Option RiskTier
  pub risk_rationale : Option String
  pub redundancy_floor_applied : Option Bool
  pub approval_decision : Option ApprovalDecision
  pub approver_id : Option String
  pub drift_detected : Option Bool
  pub idempotency_key : Option String
  pub execution_result : Option ToolResult
  pub verification_passed : Option Bool
  pub compensation : Option Compensation
  pub rollback_result : Option RollbackResult
  pub replan_cycles : ℕ
  pub replan_context : Option ReplanReason
  pub final_state : Option State

-- `{"run_id": run_id}`, with nothing else in the initial state.
unfoldable pub initial_state : String → AgentState
initial_state run_id = record {
  run_id = run_id;
  scenario_id = none;
  status = none;
  observations = none;
  diagnosis = none;
  proposed_action = none;
  action_parameters = none;
  action_rationale = none;
  state_fingerprint = none;
  invalid_proposal_reason = none;
  risk_tier_llm = none;
  risk_tier_final = none;
  risk_rationale = none;
  redundancy_floor_applied = none;
  approval_decision = none;
  approver_id = none;
  drift_detected = none;
  idempotency_key = none;
  execution_result = none;
  verification_passed = none;
  compensation = none;
  rollback_result = none;
  replan_cycles = 0;
  replan_context = none;
  final_state = none;
}

-- The dictionaries that the nodes return, a constructor for each node.
pub data Update : Type 0 where
  diagnosed : Observations → String → Update
  proposed : String → Parameters → String → Option String → Option InvalidReason → Update
  classified : RiskTier → RiskTier → String → Bool → Update
  awaiting : Update
  -- the decision, the approver, and the edited action with its fingerprint
  decided : ApprovalDecision → Option String → Option (String × String) → Update
  revalidated : Observations → String → Bool → Update
  prepared : String → Update
  executed : ToolResult → Compensation → Update
  verified : Bool → Update
  compensated : RollbackResult → Update
  rolled_back : Update
  replanned : ℕ → ReplanReason → Update
  completed : Update
  escalated : Update

abbrev edit : Option (String × String) → AgentState → AgentState
edit none s = s
edit (some (action, fingerprint)) s = record s {
  proposed_action = some action;
  state_fingerprint = some (some fingerprint);
}

-- `{**state, **update}`
unfoldable pub merge : AgentState → Update → AgentState
merge s (diagnosed observations summary) = record s {
  status = some State.diagnosing;
  observations = some observations;
  diagnosis = some summary;
}
merge s (proposed action parameters rationale fingerprint invalid) = record s {
  status = some State.action_proposed;
  proposed_action = some action;
  action_parameters = some parameters;
  action_rationale = some rationale;
  state_fingerprint = some fingerprint;
  invalid_proposal_reason = invalid;
}
merge s (classified llm final rationale floor) = record s {
  status = some State.risk_classified;
  risk_tier_llm = some llm;
  risk_tier_final = some final;
  risk_rationale = some rationale;
  redundancy_floor_applied = some floor;
}
merge s awaiting = record s { status = some State.awaiting_approval }
merge s (decided decision approver change) =
    edit change (record s { approval_decision = some decision; approver_id = approver })
merge s (revalidated observations fingerprint drift) = record s {
  status = some State.revalidating;
  observations = some observations;
  state_fingerprint = some (some fingerprint);
  drift_detected = some drift;
}
merge s (prepared key) = record s { status = some State.executing; idempotency_key = some key }
merge s (executed result compensation) = record s {
  status = some State.executing;
  execution_result = some result;
  compensation = some compensation;
}
merge s (verified passed) = record s {
  status = some State.verifying;
  verification_passed = some passed;
}
merge s (compensated result) = record s {
  status = some State.rolling_back;
  rollback_result = some result;
}
merge s rolled_back = record s { status = some State.rolled_back }
merge s (replanned cycles context) = record s {
  status = some State.replanning;
  replan_cycles = cycles;
  replan_context = some context;
}
merge s completed = record s { status = some State.completed; final_state = some State.completed }
merge s escalated = record s { status = some State.escalated; final_state = some State.escalated }

-- What a reasoner proposes.
pub record Proposal : Type 0 where
  pub tool : String
  pub target : String
  pub rationale : String
  pub parameters : Parameters

-- What a classifier answers, of `RiskClassificationOutput`.
pub record Classification : Type 0 where
  pub tier : RiskTier
  pub rationale : String

-- `AgentRuntimeContext` less the tool context, with the digest and the clock. A language model may
-- answer the same question differently at another turn, and may fail.
pub record AgentRuntimeContext : Type 0 where
  pub diagnose : ℕ → Observations → Result String
  pub propose_action : ℕ → Observations → String → Option ReplanReason → Result Proposal
  pub classify : ℕ → String → String → Option String → Option Situational → Result Classification
  pub digest : Fields → String
  pub clock : ℕ → ℕ

-- The value that a suspended run is resumed with.
pub record Resume : Type 0 where
  pub decision : ApprovalDecision
  pub edited_action : Option String
  pub approver_id : Option String
