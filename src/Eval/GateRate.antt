-- ===== src/Eval/GateRate.antt =====
-- The gate rate of src/eval/metrics.py over the records that src/eval/run_suite.py gets from
-- `run_scenario` of src/eval/runner.py.
use durable_approval_gated_r.Prelude.{
  ℕ, suc, ◌≡◌, refl, ap, inl, inr, String, Bool, is_some, List, [], ◌∷◌, filter, length, Bool-cases,
}
use durable_approval_gated_r.Prelude.Dict.{Dict}
use durable_approval_gated_r.Act.{Result, ok, go_on-eq-ok}
use durable_approval_gated_r.Agent.State.{AgentRuntimeContext}
use durable_approval_gated_r.Eval.Validation.{Scenario}
use durable_approval_gated_r.Eval.Metrics.{
  AblationMode, RunRecord, percent, is_gated, approval_gate_compliance,
}
use durable_approval_gated_r.Eval.Scenario.{run_scenario}
use durable_approval_gated_r.Eval.Compliance.{IsCompliant, run_scenario-IsCompliant}
use durable_approval_gated_r.Eval.AllFiles.{Every, AllFiles, run_modes-Every}
use durable_approval_gated_r.Eval.RunSuite.{Results, run_suite, selected}

waited_rate :
    (records : List RunRecord)
    → Every IsCompliant records
    → let gated = filter (λ r. is_gated r.risk_tier_final) records in
      length (filter (λ r. is_some r.approval_wait_seconds) gated) ≡ length gated
waited_rate [] h = refl
waited_rate (r ∷ records) ((final, inl low), hs) = rw low (waited_rate records hs)
waited_rate (r ∷ records) ((final, inr waited), hs) =
    elim (Bool-cases (is_gated r.risk_tier_final)) [
      | inl gated ↦ rw gated (rw waited (ap suc (waited_rate records hs)))
      | inr low ↦ rw low (waited_rate records hs)
    ]

-- The gate rate is 100%, or undefined.
abbrev pub IsFullRate : List RunRecord → Type 0
IsFullRate records =
    let gated = filter (λ r. is_gated r.risk_tier_final) records in
    approval_gate_compliance records ≡ percent (length gated) (length gated)

full_rates :
    (by_mode : List (AblationMode × List RunRecord))
    → Every (λ m. Every IsCompliant m.1) by_mode
    → Every (λ m. IsFullRate m.1) by_mode
unfolding approval_gate_compliance
full_rates [] h = tt
full_rates ((mode, records) ∷ by_mode) (h, hs) =
    (rw (waited_rate records h) refl, full_rates by_mode hs)

-- The gate rate of each mode of the suite is 100%, or undefined with no gated run: each run whose final
-- tier is medium or high has waited for its approval. So it is in each ablation mode, for any choice of
-- scenarios, whatever the models answer, and also resumed, if the records that the files had are such.
pub suite_gate_compliance :
    (initial_replicas : Dict ℕ) (rt : AgentRuntimeContext) (wait : ℕ) (approver : String)
    (run_id : Scenario → String) (modes : List AblationMode) (scenario_ids : List String)
    (resume : Bool) (scenarios : List Scenario) (by_mode : List (AblationMode × List RunRecord))
    (d : Results)
    → AllFiles IsCompliant d
    → (run_suite
        (λ mode s. run_scenario initial_replicas mode rt wait approver (run_id s) s)
        modes
        scenario_ids
        resume
        scenarios
        d).0
      ≡ ok by_mode
    → Every (λ m. IsFullRate m.1) by_mode
unfolding run_suite
suite_gate_compliance initial_replicas rt wait approver run_id modes scenario_ids resume scenarios
      by_mode d k e =
    let run : AblationMode → Scenario → Result RunRecord =
      λ mode s. run_scenario initial_replicas mode rt wait approver (run_id s) s in
    let (chosen, known, e1) = go_on-eq-ok (selected scenario_ids scenarios) _ d e in
    full_rates by_mode (
      run_modes-Every IsCompliant run
        (λ mode s r done.
          run_scenario-IsCompliant initial_replicas mode rt wait approver (run_id s) s r done)
        modes resume chosen by_mode d k e1)
