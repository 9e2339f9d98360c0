-- ===== src/Agent/Nodes.antt =====
-- src/agent/nodes.py: the nodes of the graph. The pauses of `mark`
-- (src/chaos/hooks.py) change nothing and are left out.
use durable_approval_gated_r.Prelude.{
  ℕ, ◌+◌, String, Bool, true, false, not, ◌&&◌, Option, none, some, if◌then◌else◌, str_eq,
}
use durable_approval_gated_r.Act.{
  Result, ok, required, map_result, and_then, Act, pure, lift, ◌>>=◌,
}
use durable_approval_gated_r.Action.{join_action, split_action}
use durable_approval_gated_r.World.{World}
use durable_approval_gated_r.Observations.{gather_observations}
use durable_approval_gated_r.Fingerprint.{InvalidReason, validate_proposal, compute_fingerprint}
use durable_approval_gated_r.Policy.{
  is_low, is_medium, is_sole_instance, situational_features, apply_policy,
}
use durable_approval_gated_r.Execution.{
  Parameters, no_parameters, execute_action, verify_action, apply_compensation,
}
use durable_approval_gated_r.Agent.State.{
  ApprovalDecision, approved, edited, rejected, timeout, ReplanReason, not_valid, reviewer_rejected,
  environment_changed, did_not_fix, not_resolved, AgentState, Update, diagnosed, proposed,
  classified, awaiting, decided, revalidated, prepared, executed, verified, compensated, replanned,
  AgentRuntimeContext, Resume,
}

abbrev pub or_none : Option Parameters → Parameters
or_none none = no_parameters
or_none (some parameters) = parameters

-- `decision.get("edited_action")` counts only if it is not empty.
abbrev truthy : Option String → Option String
truthy none = none
truthy (some s) = if str_eq s "" then none else some s

-- `a == b` of optional texts.
abbrev same_text : Option String → Option String → Bool
same_text none none = true
same_text none (some t) = false
same_text (some s) none = false
same_text (some s) (some t) = str_eq s t

abbrev is_true : Option Bool → Bool
is_true none = false
is_true (some b) = b

-- `x is False`
abbrev is_false : Option Bool → Bool
is_false none = false
is_false (some b) = not b

abbrev is_rejected : Option ApprovalDecision → Bool
is_rejected none = false
is_rejected (some approved) = false
is_rejected (some edited) = false
is_rejected (some rejected) = true
is_rejected (some timeout) = false

abbrev valid_reason : AgentState → ReplanReason
valid_reason s =
    if is_rejected s.approval_decision
    then reviewer_rejected s.proposed_action
    else if is_true s.drift_detected
    then environment_changed s.proposed_action
    else if is_false s.verification_passed
    then did_not_fix s.proposed_action
    else not_resolved s.proposed_action

abbrev reason_or : Option InvalidReason → AgentState → ReplanReason
reason_or (some reason) s = not_valid s.proposed_action reason
reason_or none s = valid_reason s

-- `_replan_reason`
unfoldable pub replan_reason : AgentState → ReplanReason
replan_reason s = reason_or s.invalid_proposal_reason s

abbrev fingerprint_unless : Option InvalidReason → Result String → Result (Option String)
fingerprint_unless (some reason) fingerprint = ok none
fingerprint_unless none fingerprint = map_result some fingerprint

-- The idempotency key of a run's action.
unfoldable pub idempotency_key : String → String → String
idempotency_key run_id proposed_action = join_action run_id proposed_action

abbrev edited_with : (String → Result String) → Option String → Result (Option (String × String))
edited_with fingerprint none = ok none
edited_with fingerprint (some action) = map_result (λ f. some (action, f)) (fingerprint action)

-- Every node takes the turn at which it runs and the state that it reads.
module _ (rt : AgentRuntimeContext) (turn : ℕ) (s : AgentState) where
  unfoldable pub diagnose : Act World Update
  diagnose = do
    observations ← gather_observations
    summary ← lift (rt.diagnose turn observations)
    pure (diagnosed observations summary)

  unfoldable pub propose_action : Act World Update
  propose_action = do
    observations ← lift (required "observations" s.observations)
    diagnosis ← lift (required "diagnosis" s.diagnosis)
    action ← lift (rt.propose_action turn observations diagnosis s.replan_context)
    let proposed_action = join_action action.tool action.target
    invalid ← lift (validate_proposal observations proposed_action)
    fingerprint ←
        lift
          (fingerprint_unless invalid (compute_fingerprint rt.digest observations proposed_action))
    pure (proposed proposed_action action.parameters action.rationale fingerprint invalid)

  unfoldable pub classify_risk : Act World Update
  classify_risk = do
    action ← lift (required "proposed_action" s.proposed_action)
    (tool, _) ← lift (split_action action)
    observations ← lift (required "observations" s.observations)
    situational ← lift (situational_features observations action)
    diagnosis ← lift (required "diagnosis" s.diagnosis)
    result ← lift (rt.classify turn action diagnosis s.action_rationale situational)
    let final = apply_policy tool result.tier situational
    pure (
        classified result.tier final result.rationale
          (is_low result.tier && (is_medium final && is_sole_instance situational)))

  unfoldable pub mark_awaiting_approval : Act World Update
  mark_awaiting_approval = pure awaiting

  -- What `await_approval` does once `interrupt` returns the decision.
  unfoldable pub take_decision : Resume → Act World Update
  take_decision r = do
    change ← lift (
        edited_with
          (λ action.
            and_then (required "observations" s.observations)
              (λ observations. compute_fingerprint rt.digest observations action))
          (truthy r.edited_action))
    pure (decided r.decision r.approver_id change)

  unfoldable pub revalidate : Act World Update
  revalidate = do
    fresh ← gather_observations
    action ← lift (required "proposed_action" s.proposed_action)
    fingerprint ← lift (compute_fingerprint rt.digest fresh action)
    before ← lift (required "state_fingerprint" s.state_fingerprint)
    pure (revalidated fresh fingerprint (not (same_text (some fingerprint) before)))

  unfoldable pub prepare_execution : Act World Update
  prepare_execution = do
    action ← lift (required "proposed_action" s.proposed_action)
    pure (prepared (idempotency_key s.run_id action))

  unfoldable pub execute : Act World Update
  execute = do
    action ← lift (required "proposed_action" s.proposed_action)
    key ← lift (required "idempotency_key" s.idempotency_key)
    (result, compensation) ← execute_action action (or_none s.action_parameters) key
    pure (executed result compensation)

  unfoldable pub verify : Act World Update
  verify = do
    action ← lift (required "proposed_action" s.proposed_action)
    result ← lift (required "execution_result" s.execution_result)
    passed ← verify_action action result
    pure (verified passed)

  unfoldable pub rolling_back : Act World Update
  rolling_back = do
    compensation ← lift (required "compensation" s.compensation)
    result ← apply_compensation compensation
    pure (compensated result)

  unfoldable pub rolled_back : Act World Update
  rolled_back = pure Update.rolled_back

  unfoldable pub replan : Act World Update
  replan = pure (replanned (s.replan_cycles + 1) (replan_reason s))

  unfoldable pub completed : Act World Update
  completed = pure Update.completed

  unfoldable pub escalate : Act World Update
  escalate = pure Update.escalated
