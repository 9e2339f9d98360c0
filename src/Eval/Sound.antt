-- ===== src/Eval/Sound.antt =====
-- The summary of src/eval/run_suite.py over the records of src/eval/runner.py.
use durable_approval_gated_r.Prelude.{
  ℕ, Bool-cases, inl, inr, ◌≡◌, subst, String, Bool, List, [], ◌∷◌, map,
}
use durable_approval_gated_r.Prelude.Dict.{Dict}
use durable_approval_gated_r.Act.{Result, ok, ok-injective, go_on-eq-ok}
use durable_approval_gated_r.Agent.State.{AgentRuntimeContext}
use durable_approval_gated_r.Eval.Validation.{Scenario}
use durable_approval_gated_r.Eval.Metrics.{AblationMode, RunRecord, ScenarioTruth, percent}
use durable_approval_gated_r.Eval.Rates.{
  IsProportion, HasScores, risk_classification-HasScores, rates_in_range,
}
use durable_approval_gated_r.Eval.Confusion.{
  Classified, runs_by_tool, risk_classification_precision_recall_f1,
  risk_classification_precision_recall_f1_by_tool,
}
use durable_approval_gated_r.Eval.Scenario.{run_scenario}
use durable_approval_gated_r.Eval.Compliance.{IsCompliant}
use durable_approval_gated_r.Eval.AllFiles.{Every, AllFiles}
use durable_approval_gated_r.Eval.RunSuite.{Results, run_suite, run_modes, selected}
use durable_approval_gated_r.Eval.GateRate.{IsFullRate, suite_gate_compliance}
use durable_approval_gated_r.Eval.Summary.{
  AllMetrics, compute_all_metrics, SuiteSummary, index_for, summarize_suite, same_mode, put_records,
  results_by_mode,
}

abbrev HaveScores : Dict Classified → Type 0
HaveScores by_tool = Every (λ (c : String × Classified). HasScores c.1) by_tool

by_tool-HaveScores :
    (groups : Dict (List RunRecord)) (by_id : Dict ScenarioTruth)
    → HaveScores (map (λ g. (g.0, risk_classification_precision_recall_f1 g.1 by_id)) groups)
by_tool-HaveScores [] by_id = tt
by_tool-HaveScores ((tool, runs) ∷ groups) by_id =
    (risk_classification-HasScores runs by_id, by_tool-HaveScores groups by_id)

-- Every rate and score, also of each tool, is a proportion or undefined, and the gate rate is 100% or undefined.
abbrev pub IsSound : AllMetrics → Type 0
IsSound m =
    IsProportion m.unsafe_action_prevention.0
    × IsProportion m.unsafe_action_prevention.1
    × ((n : ℕ) × (m.approval_gate ≡ percent n n))
    × IsProportion m.policy_override
    × IsProportion m.redundancy_floor_override
    × IsProportion m.staleness_detection.0
    × IsProportion m.staleness_detection.1
    × IsProportion m.diagnosis
    × IsProportion m.remediation_success
    × IsProportion m.rollback_success
    × IsProportion m.audit_complete
    × HasScores m.risk_classification
    × HaveScores m.risk_classification_by_tool

metrics-IsSound :
    (runs : List RunRecord) (by_id : Dict ScenarioTruth)
    → IsFullRate runs
    → IsSound (compute_all_metrics runs by_id)
unfolding compute_all_metrics risk_classification_precision_recall_f1_by_tool
metrics-IsSound runs by_id full =
    let (u, t, g, f, x, s, sf, d, r, rb, a, p) = rates_in_range runs by_id in
    (
      u,
      t,
      (_, full),
      p,
      f,
      s,
      sf,
      d,
      r,
      rb,
      a,
      risk_classification-HasScores runs by_id,
      by_tool-HaveScores (runs_by_tool runs []) by_id,
    )

abbrev pub AreSound : List (AblationMode × AllMetrics) → Type 0
AreSound by_mode = Every (λ (m : AblationMode × AllMetrics). IsSound m.1) by_mode

abbrev AreFull : List (AblationMode × List RunRecord) → Type 0
AreFull results = Every (λ (m : AblationMode × List RunRecord). IsFullRate m.1) results

by_mode-IsSound :
    (results : List (AblationMode × List RunRecord)) (by_id : Dict ScenarioTruth)
    → AreFull results
    → AreSound (map (λ r. (r.0, compute_all_metrics r.1 by_id)) results)
by_mode-IsSound [] by_id h = tt
by_mode-IsSound ((mode, runs) ∷ results) by_id (h, hs) =
    (metrics-IsSound runs by_id h, by_mode-IsSound results by_id hs)

put_records-AreFull :
    (mode : AblationMode) (records : List RunRecord)
    (results : List (AblationMode × List RunRecord))
    → IsFullRate records
    → AreFull results
    → AreFull (put_records mode records results)
unfolding put_records
put_records-AreFull mode records [] h hs = (h, tt)
put_records-AreFull mode records ((m, rs) ∷ results) h (k, ks) =
    elim (Bool-cases (same_mode m mode)) [
      | inl e ↦ rw e (h, ks)
      | inr e ↦ rw e (k, put_records-AreFull mode records results h ks)
    ]

results_by_mode-AreFull :
    (results ran : List (AblationMode × List RunRecord))
    → AreFull results
    → AreFull ran
    → AreFull (results_by_mode results ran)
unfolding results_by_mode
results_by_mode-AreFull results [] h k = h
results_by_mode-AreFull results ((mode, records) ∷ ran) h (k, ks) =
    results_by_mode-AreFull (put_records mode records results) ran
      (put_records-AreFull mode records results k h) ks

-- In the summary of the suite, of any modes and scenarios, whatever the models answer, and also resumed:
-- each mode's rates are between 0% and 100%, or undefined, and its gate rate is 100%, or undefined with
-- no gated run. Each record that the files had must be final, and have its wait if it is gated.
pub summary-IsSound :
    (truth : Scenario → ScenarioTruth) (initial_replicas : Dict ℕ) (rt : AgentRuntimeContext)
    (wait : ℕ) (approver : String) (run_id : Scenario → String) (modes : List AblationMode)
    (scenario_ids : List String) (resume : Bool) (scenarios : List Scenario)
    (summary : SuiteSummary) (d : Results)
    → AllFiles IsCompliant d
    → (summarize_suite truth
        (λ mode s. run_scenario initial_replicas mode rt wait approver (run_id s) s)
        modes
        scenario_ids
        resume
        scenarios
        d).0
      ≡ ok summary
    → AreSound summary.by_mode
unfolding summarize_suite run_suite
summary-IsSound truth initial_replicas rt wait approver run_id modes scenario_ids resume scenarios
      summary d k e =
    let run : AblationMode → Scenario → Result RunRecord =
      λ mode s. run_scenario initial_replicas mode rt wait approver (run_id s) s in
    let (chosen, known, e1) = go_on-eq-ok (selected scenario_ids scenarios) _ d e in
    let ran = run_modes run modes resume chosen d in
    let (ran_by, done, e2) = go_on-eq-ok ran.0 _ ran.1 e1 in
    let (by_id, indexed, e3) =
      go_on-eq-ok (index_for (results_by_mode [] ran_by) truth chosen) _ ran.1 e2 in
    subst (λ s. AreSound s.by_mode) (ok-injective e3)
      (by_mode-IsSound (results_by_mode [] ran_by) by_id (
        results_by_mode-AreFull [] ran_by tt (
          suite_gate_compliance initial_replicas rt wait approver run_id modes scenario_ids resume
            scenarios ran_by d k (rw known done))))
