-- ===== src/Eval/Scenario.antt =====
-- `run_scenario` of src/eval/runner.py: one scenario from its fault to its record, every suspension
-- approved by the harness. The models are those of the context; a wait counts seconds.
use durable_approval_gated_r.Prelude.{
  ℕ, zero, suc, ◌+◌, String, Bool, true, false, ◌&&◌, ◌||◌, Option, none, some, List, [], ◌∷◌, any,
  if◌then◌else◌, str_eq,
}
use durable_approval_gated_r.Prelude.Dict.{Dict}
use durable_approval_gated_r.Act.{
  Result, ok, raised, required, map_result, and_then, Act, pure, ◌>>=◌,
}
use durable_approval_gated_r.World.{World}
use durable_approval_gated_r.Agent.State.{State, approved, AgentRuntimeContext, Resume}
use durable_approval_gated_r.Agent.Graph.{
  Config, Stop, finished, waiting, failed, out_of_fuel, start_workflow, resume_workflow,
}
use durable_approval_gated_r.Audit.Hook.{AuditRecord, get_run}
use durable_approval_gated_r.Eval.Sandbox.{build_sandbox, new_run}
use durable_approval_gated_r.Eval.Faults.{Change, inject, apply_staleness_change}
use durable_approval_gated_r.Eval.Validation.{Scenario}
use durable_approval_gated_r.Eval.Metrics.{AblationMode, RunRecord}

-- `mode != "no_revalidation"`
abbrev pub revalidates : AblationMode → Bool
revalidates AblationMode.full = true
revalidates AblationMode.no_durability = true
revalidates AblationMode.no_revalidation = false

-- `"__interrupt__" in result`
abbrev pub is_waiting : Stop → Bool
is_waiting finished = false
is_waiting (waiting question) = true
is_waiting (failed n e) = false
is_waiting (out_of_fuel n) = false

-- The loop's variables: what the last invocation returned, the wait so far, and whether drift was seen.
pub record Progress : Type 0 where
  pub stop : Stop
  pub config : Config
  pub approval_wait_seconds : Option ℕ
  pub drift_detected : Option Bool

abbrev seconds : Option ℕ → ℕ
seconds none = 0
seconds (some n) = n

abbrev truth : Option Bool → Bool
truth none = false
truth (some b) = b

-- `bool(drift_detected_overall) or bool(result["drift_detected"])`, if the result has the key.
abbrev note_drift : Option Bool → Option Bool → Option Bool
note_drift overall none = overall
note_drift overall (some b) = some (truth overall || b)

abbrev resumed_as : ℕ → Progress → Stop × Config → Progress
resumed_as wait p (stop, c) = record {
  stop = stop;
  config = c;
  approval_wait_seconds = some (seconds p.approval_wait_seconds + wait);
  drift_detected = note_drift p.drift_detected c.state.drift_detected;
}

abbrev pub approval_by : String → Resume
approval_by approver = record {
  decision = approved;
  edited_action = none;
  approver_id = some approver;
}

-- The body of the loop: a wait, then an approval.
unfoldable pub approve : AblationMode → AgentRuntimeContext → ℕ → String → Progress → Progress
approve mode rt wait approver p =
    resumed_as wait p (resume_workflow (revalidates mode) rt (approval_by approver) p.config)

abbrev while_waiting : Stop → Progress → (Progress → Progress) → Progress
while_waiting (waiting question) p next = next p
while_waiting finished p next = p
while_waiting (failed n e) p next = p
while_waiting (out_of_fuel n) p next = p

-- `while "__interrupt__" in result`
unfoldable pub approve_all :
    ℕ → AblationMode → AgentRuntimeContext → ℕ → String → Progress → Progress
approve_all zero mode rt wait approver p = p
approve_all (suc fuel) mode rt wait approver p =
    while_waiting p.stop p
      (λ q. approve_all fuel mode rt wait approver (approve mode rt wait approver q))

-- As many rounds as the loop can take.
abbrev pub enough_approvals : ℕ
enough_approvals = 3

-- Before the loop: neither a wait nor drift has been noted.
abbrev pub begun : Stop × Config → Progress
begun (stop, c) = record {
  stop = stop;
  config = c;
  approval_wait_seconds = none;
  drift_detected = none;
}

unfoldable pub apply_changes : List Change → Act {0, 0} World Unit
unfolding apply_staleness_change
apply_changes [] = pure tt
apply_changes (change ∷ changes) = do done ← apply_staleness_change change; apply_changes changes

-- A run in the sandbox that its suspension left, after the changes.
abbrev pub changed : Progress → Result {0} Unit × World → Result Progress
changed p (ok done, w) = ok (record p { config = record p.config { world = w } })
changed p (raised e, w) = raised e

-- `first_suspension and scenario["category"] == "staleness"`
abbrev pub is_stale : Bool → Option String → Result Bool
is_stale false category = ok false
is_stale true category = map_result (λ c. str_eq c "staleness") (required "category" category)

-- What happens in the first wait of a staleness scenario.
abbrev pub first_wait : Bool → Option (Option (List Change)) → Progress → Result Progress
first_wait false injection p = ok p
first_wait true injection p = and_then (required "staleness_injection" injection) (λ i.
    and_then (required "changes" i) (λ changes. changed p (apply_changes changes p.config.world)))

abbrev pub unless_failed : Stop → Progress → Result Progress
unless_failed (failed n e) p = raised e
unless_failed finished p = ok p
unless_failed (waiting question) p = ok p
unless_failed (out_of_fuel n) p = ok p

-- An invocation that raised ends the scenario.
abbrev pub returned : Progress → Result Progress
returned p = unless_failed p.stop p

abbrev reached : State → Option State → Bool
reached State.action_proposed (some State.action_proposed) = true
reached State.verifying (some State.verifying) = true
reached State.rolling_back (some State.rolling_back) = true
reached s t = false

abbrev cons_some : Option String → List String → List String
cons_some none actions = actions
cons_some (some a) actions = a ∷ actions

-- The actions of the records that lead to a state. At ACTION_PROPOSED there always is one.
unfoldable pub actions_at : State → List AuditRecord → List String
actions_at s [] = []
actions_at s (r ∷ records) =
    let rest = actions_at s records in
    if reached s r.to_state then cons_some r.action_proposed rest else rest

-- `result.get("final_state") or result.get("status")`
abbrev pub final_or : Option State → Option State → Option State
final_or none status = status
final_or (some s) status = some s

-- The record of a run; `first_suspension` and `applied` are as at its first suspension.
unfoldable pub run_record : String → String → AblationMode → Bool → Bool → Progress → RunRecord
unfolding actions_at get_run
run_record run_id scenario_id mode first_suspension applied p =
    let s = p.config.state in
    let records = get_run run_id p.config.audit in
    record {
      run_id = run_id;
      scenario_id = scenario_id;
      ablation_mode = mode;
      proposed_actions = actions_at State.action_proposed records;
      executed_actions = actions_at State.verifying records;
      risk_tier_llm = s.risk_tier_llm;
      risk_tier_final = s.risk_tier_final;
      redundancy_floor_applied = s.redundancy_floor_applied;
      approval_wait_seconds = p.approval_wait_seconds;
      drift_detected = p.drift_detected;
      final_state = final_or s.final_state s.status;
      verification_passed = s.verification_passed;
      revalidation_triggered = revalidates mode && first_suspension;
      staleness_injection_applied = applied;
      rollback_invoked = any (λ r. reached State.rolling_back r.to_state) records;
      replan_cycles = s.replan_cycles;
      process_kills_survived = 0;
      idempotency_collisions = 0;
      audit_records = records;
    }

-- From the first invocation on, in a sandbox that has its fault.
unfoldable pub drive_scenario :
    AblationMode
    → AgentRuntimeContext
    → ℕ
    → String
    → String
    → String
    → Scenario
    → World
    → Result RunRecord
unfolding approve_all apply_changes run_record
drive_scenario mode rt wait approver run_id scenario_id scenario w =
    let started = begun (start_workflow (revalidates mode) rt (new_run run_id w)) in
    let first = is_waiting started.stop in
    and_then (returned started) (λ p. and_then (is_stale first scenario.category) (λ stale.
      and_then (first_wait stale scenario.staleness_injection p) (λ q.
        map_result (run_record run_id scenario_id mode first stale)
          (returned (approve_all enough_approvals mode rt wait approver q)))))

abbrev pub fault_of : Scenario → Result (String × String × String)
fault_of scenario = and_then (required "fault_injection" scenario.fault_injection) (λ fault.
    and_then (required "service" fault.service) (λ service.
      and_then (required "type" fault.fault_type)
        (λ type. map_result (λ rate. (service, type, rate)) (required "rate" fault.rate))))

-- Go on in the sandbox that the injection left.
abbrev pub injected {ℓ} :
    {A : Type ℓ} → Result A × World → (World → Result RunRecord) → Result RunRecord
injected (ok reply, w) next = next w
injected (raised e, w) next = raised e

-- `run_scenario` with in-process services, for a run id that no run has.
unfoldable pub run_scenario :
    Dict ℕ → AblationMode → AgentRuntimeContext → ℕ → String → String → Scenario → Result RunRecord
unfolding build_sandbox inject drive_scenario
run_scenario initial_replicas mode rt wait approver run_id scenario =
    and_then (fault_of scenario) (λ (service, type, rate).
      injected (inject service type rate (build_sandbox initial_replicas)) (λ w.
        and_then (required "id" scenario.id)
          (λ id. drive_scenario mode rt wait approver run_id id scenario w)))
