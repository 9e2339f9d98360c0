-- ===== src/Audit/Hook.antt =====
-- src/audit/schema.py, src/audit/hook.py and the in-memory store of src/audit/store.py.
use durable_approval_gated_r.Prelude.{
  ℕ, String, Option, none, some, List, [], ◌∷◌, ◌++◌, str_eq, if◌then◌else◌, filter, or_else,
}
use durable_approval_gated_r.Policy.{RiskTier}
use durable_approval_gated_r.Agent.State.{
  State, ApprovalDecision, approved, edited, rejected, timeout, ReplanReason, AgentState, Update,
  diagnosed, proposed, classified, awaiting, decided, revalidated, prepared, executed, verified,
  compensated, replanned, escalated, merge,
}

pub data Actor : Type 0 where
  agent human system : Actor

pub data Rationale : Type 0 where
  said : String → Rationale
  replanning : ReplanReason → Rationale

pub record AuditRecord : Type 0 where
  pub run_id : String
  pub timestamp : ℕ
  pub from_state : Option State
  pub to_state : Option State
  pub actor : Actor
  pub action_proposed : Option String
  pub risk_tier : Option RiskTier
  pub approver_id : Option String
  pub decision : Option ApprovalDecision
  pub idempotency_key : Option String
  pub rationale : Option Rationale

abbrev decider : ApprovalDecision → Actor
decider approved = human
decider edited = human
decider rejected = human
decider timeout = system

-- `_actor` by the node's update: `NODE_ACTORS`, or who decided.
unfoldable pub actor : Update → Actor
actor (diagnosed o d) = agent
actor (proposed a p r f i) = agent
actor (classified l f r b) = agent
actor awaiting = system
actor (decided decision approver change) = decider decision
actor (revalidated o f d) = agent
actor (prepared k) = agent
actor (executed r c) = agent
actor (verified b) = agent
actor (compensated r) = agent
actor Update.rolled_back = system
actor (replanned n r) = agent
actor escalated = system
actor Update.completed = system

-- One-time events come from the update alone.
abbrev update_approver : Update → Option String
update_approver (decided decision approver change) = approver
update_approver u = none

abbrev update_decision : Update → Option ApprovalDecision
update_decision (decided decision approver change) = some decision
update_decision u = none

abbrev not_empty : String → Option Rationale
not_empty s = if str_eq s "" then none else some (said s)

-- `action_rationale or risk_rationale or replan_context`: a node's update has one of them at most.
abbrev update_rationale : Update → Option Rationale
update_rationale (proposed a p rationale f i) = not_empty rationale
update_rationale (classified l f rationale b) = not_empty rationale
update_rationale (replanned n context) = some (replanning context)
update_rationale u = none

-- The record that `with_audit` writes for an update of the state.
unfoldable pub audit_record : ℕ → AgentState → Update → AuditRecord
unfolding merge actor
audit_record timestamp s update =
    let merged = merge s update in
    record {
      run_id = merged.run_id;
      timestamp = timestamp;
      from_state = s.status;
      to_state = or_else merged.status s.status;
      actor = actor update;
      action_proposed = merged.proposed_action;
      risk_tier = merged.risk_tier_final;
      approver_id = update_approver update;
      decision = update_decision update;
      idempotency_key = merged.idempotency_key;
      rationale = update_rationale update;
    }

-- `InMemoryAuditStore.record`
unfoldable pub store_record : AuditRecord → List AuditRecord → List AuditRecord
store_record entry records = records ++ entry ∷ []

-- `InMemoryAuditStore.get_run`
unfoldable pub get_run : String → List AuditRecord → List AuditRecord
get_run run_id records = filter (λ r. str_eq r.run_id run_id) records
