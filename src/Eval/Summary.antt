-- ===== src/Eval/Summary.antt =====
-- `compute_all_metrics` and the comparison table of src/eval/metrics.py, and the summary of
-- src/eval/run_suite.py. The times, the costs and the layout of the printed text are left out; what the
-- metrics read of a scenario is an argument.
use durable_approval_gated_r.Prelude.{
  ℕ, true, false, ltb, String, Bool, Option, none, some, List, [], ◌∷◌, map, length, if◌then◌else◌,
}
use durable_approval_gated_r.Prelude.Dict.{Dict, insert}
use durable_approval_gated_r.Act.{Result, ok, required, and_then, Act, lift, pure, ◌>>=◌}
use durable_approval_gated_r.Eval.Validation.{Scenario}
use durable_approval_gated_r.Eval.Metrics.{
  AblationMode, RunRecord, ScenarioTruth, unsafe_action_prevention_rate, approval_gate_compliance,
  redundancy_floor_override_rate, staleness_detection_rate, diagnosis_accuracy,
  remediation_success_rate, rollback_success_rate, audit_completeness,
}
use durable_approval_gated_r.Eval.Confusion.{
  Classified, policy_override_rate, risk_classification_precision_recall_f1,
  risk_classification_precision_recall_f1_by_tool, staleness_incorrect_execution_count,
}
use durable_approval_gated_r.Eval.RunSuite.{Results, selected, run_modes}

-- A percentage, as numerator and denominator.
abbrev pub Rate : Type 0
Rate = Option (ℕ × ℕ)

-- The dictionary that `compute_all_metrics` returns.
pub record AllMetrics : Type 0 where
  pub unsafe_action_prevention : Rate × Rate
  pub approval_gate : Rate
  pub risk_classification : Classified
  pub risk_classification_by_tool : Dict Classified
  pub policy_override : Rate
  pub redundancy_floor_override : Rate
  pub staleness_detection : Rate × Rate
  pub diagnosis : Rate
  pub remediation_success : Rate
  pub rollback_success : Rate
  pub audit_complete : Rate
  pub total_runs : ℕ

-- `compute_all_metrics(runs, scenarios)`
unfoldable pub compute_all_metrics : List RunRecord → Dict ScenarioTruth → AllMetrics
compute_all_metrics runs by_id = record {
  unsafe_action_prevention = unsafe_action_prevention_rate runs by_id;
  approval_gate = approval_gate_compliance runs;
  risk_classification = risk_classification_precision_recall_f1 runs by_id;
  risk_classification_by_tool = risk_classification_precision_recall_f1_by_tool runs by_id;
  policy_override = policy_override_rate runs;
  redundancy_floor_override = redundancy_floor_override_rate runs;
  staleness_detection = staleness_detection_rate runs by_id;
  diagnosis = diagnosis_accuracy runs by_id;
  remediation_success = remediation_success_rate runs;
  rollback_success = rollback_success_rate runs;
  audit_complete = audit_completeness runs;
  total_runs = length runs;
}

-- `ABLATION_COLUMNS`
abbrev pub ablation_columns : List (String × (AllMetrics → Rate))
ablation_columns =
    ("unsafe_action_prevention_rate (overall)", λ m. m.unsafe_action_prevention.0)
    ∷ ("unsafe_action_prevention_rate (trap)", λ m. m.unsafe_action_prevention.1)
    ∷ ("staleness_detection_rate", λ m. m.staleness_detection.0)
    ∷ ("false_drift_rate", λ m. m.staleness_detection.1)
    ∷ ("redundancy_floor_override_rate", λ m. m.redundancy_floor_override)
    ∷ ("diagnosis_accuracy", λ m. m.diagnosis)
    ∷ ("remediation_success_rate", λ m. m.remediation_success)
    ∷ ("audit_completeness", λ m. m.audit_complete)
    ∷ []

-- What the table shows: a row of cells for each metric, a cell for each configuration; and the last row.
pub record AblationTable : Type 0 where
  pub rows : List (String × List Rate)
  pub executed_despite_drift : List ℕ

-- `ablation_comparison_table`
unfoldable pub ablation_comparison_table :
    List (AblationMode × List RunRecord) → Dict ScenarioTruth → AblationTable
unfolding compute_all_metrics
ablation_comparison_table results by_id =
    let metrics_by_config = map (λ r. compute_all_metrics r.1 by_id) results in
    record {
      rows = map (λ column. (column.0, map column.1 metrics_by_config)) ablation_columns;
      executed_despite_drift = map (λ r. staleness_incorrect_execution_count r.1 by_id) results;
    }

-- `_index_scenarios`
unfoldable pub index_scenarios :
    (Scenario → ScenarioTruth) → List Scenario → Dict ScenarioTruth → Result (Dict ScenarioTruth)
unfolding insert
index_scenarios truth [] by_id = ok by_id
index_scenarios truth (s ∷ scenarios) by_id =
    and_then (required "id" s.id)
      (λ id. index_scenarios truth scenarios (insert id (truth s) by_id))

-- Each mode's metrics index the scenarios.
abbrev pub index_for :
    List (AblationMode × List RunRecord)
    → (Scenario → ScenarioTruth)
    → List Scenario
    → Result (Dict ScenarioTruth)
index_for [] truth scenarios = ok []
index_for (r ∷ results) truth scenarios = index_scenarios truth scenarios []

abbrev pub same_mode : AblationMode → AblationMode → Bool
same_mode AblationMode.full AblationMode.full = true
same_mode AblationMode.no_durability AblationMode.no_durability = true
same_mode AblationMode.no_revalidation AblationMode.no_revalidation = true
same_mode m n = false

-- `results_by_mode[mode] = records`
unfoldable pub put_records :
    AblationMode
    → List RunRecord
    → List (AblationMode × List RunRecord)
    → List (AblationMode × List RunRecord)
put_records mode records [] = (mode, records) ∷ []
put_records mode records ((m, rs) ∷ results) =
    if same_mode m mode then (m, records) ∷ results else (m, rs) ∷ put_records mode records results

-- `results_by_mode`, of the runs of the modes one after the other.
unfoldable pub results_by_mode :
    List (AblationMode × List RunRecord)
    → List (AblationMode × List RunRecord)
    → List (AblationMode × List RunRecord)
unfolding put_records
results_by_mode results [] = results
results_by_mode results ((mode, records) ∷ ran) =
    results_by_mode (put_records mode records results) ran

-- The summary, and the table where there is more than one mode.
pub record SuiteSummary : Type 0 where
  pub scenario_count : ℕ
  pub modes_run : List AblationMode
  pub by_mode : List (AblationMode × AllMetrics)
  pub staleness_incorrect : List (AblationMode × ℕ)
  pub table : Option AblationTable

abbrev pub summary_of :
    List AblationMode
    → List Scenario
    → List (AblationMode × List RunRecord)
    → Dict ScenarioTruth
    → SuiteSummary
summary_of modes scenarios results by_id = record {
  scenario_count = length scenarios;
  modes_run = modes;
  by_mode = map (λ r. (r.0, compute_all_metrics r.1 by_id)) results;
  staleness_incorrect = map (λ r. (r.0, staleness_incorrect_execution_count r.1 by_id)) results;
  table = if ltb 1 (length results) then some (ablation_comparison_table results by_id) else none;
}

-- `run_suite` with its summary.
unfoldable pub summarize_suite :
    (Scenario → ScenarioTruth)
    → (AblationMode → Scenario → Result RunRecord)
    → List AblationMode
    → List String
    → Bool
    → List Scenario
    → Act Results SuiteSummary
unfolding selected run_modes index_scenarios results_by_mode
summarize_suite truth run modes scenario_ids resume scenarios = do
  chosen ← lift (selected scenario_ids scenarios)
  ran ← run_modes run modes resume chosen
  by_id ← lift (index_for (results_by_mode [] ran) truth chosen)
  pure (summary_of modes chosen (results_by_mode [] ran) by_id)
