-- ===== src/Eval/Rates.antt =====
-- What the rates of src/eval/metrics.py mean: they are proportions, and a wildcard forbids every target.
use durable_approval_gated_r.Prelude.{
  ℕ, zero, suc, ◌+◌, ◌≤◌, ◌<◌, Bool, Option, none, some, List, [], ◌∷◌, filter, length, arith,
  Bool-cases, inl, inr, ◌==◌,
}
use durable_approval_gated_r.Prelude.Dict.{Dict}
use durable_approval_gated_r.Policy.{RiskTier, low, medium, high}
use durable_approval_gated_r.Eval.Confusion.{
  cell, pairs, f1_of, ClassScore, class_score, policy_override_rate, Classified,
  risk_classification_precision_recall_f1,
}
use durable_approval_gated_r.Eval.Metrics.{
  RunRecord, ScenarioTruth, percent, unsafe_action_prevention_rate, approval_gate_compliance,
  redundancy_floor_override_rate, exactly_once_guarantee_rate, staleness_detection_rate,
  diagnosis_accuracy, remediation_success_rate, rollback_success_rate, audit_completeness,
}

-- A proportion: of nothing, or of a part in a whole that is not empty.
abbrev pub IsProportion : Option (ℕ × ℕ) → Type 0
IsProportion none = Unit
IsProportion (some (part, whole)) = (part ≤ whole) × (0 < whole)

length-filter {ℓ} :
    {A : Type ℓ} (test : A → Bool) (xs : List A) → length (filter test xs) ≤ length xs
length-filter test [] = omega arith
length-filter test (x ∷ xs) = ground (arith, length-filter test xs)

percent-IsProportion {ℓ} :
    {A : Type ℓ} (test : A → Bool) (xs : List A)
    → IsProportion (percent (length (filter test xs)) (length xs))
unfolding percent
percent-IsProportion test xs = elim (Bool-cases (length xs == 0)) [
  | inl e ↦ rw e tt
  | inr e ↦ rw e (length-filter test xs, ground (arith, e))
]

part-IsProportion : (part rest : ℕ) → IsProportion (percent part (part + rest))
unfolding percent
part-IsProportion part rest = elim (Bool-cases ((part + rest) == 0)) [
  | inl e ↦ rw e tt
  | inr e ↦ rw e (omega arith, ground (arith, e))
]

f1-IsProportion : (tp fp fn : ℕ) → IsProportion (f1_of tp fp fn)
f1-IsProportion zero fp fn = tt
f1-IsProportion (suc n) fp fn = (omega arith, omega arith)

-- Precision, recall and F1 are proportions.
abbrev pub IsScore : ClassScore → Type 0
IsScore s = IsProportion s.precision × IsProportion s.recall × IsProportion s.f1

class_score-IsScore :
    (tier : RiskTier) (ps : List (RiskTier × RiskTier)) → IsScore (class_score tier ps)
unfolding class_score
class_score-IsScore tier ps =
    (part-IsProportion _ _, part-IsProportion _ _, f1-IsProportion (cell tier tier ps) _ _)

-- The scores of the three tiers.
abbrev pub HasScores : Classified → Type 0
HasScores c = IsScore c.low_score × IsScore c.medium_score × IsScore c.high_score

pub risk_classification-HasScores :
    (runs : List RunRecord) (by_id : Dict ScenarioTruth)
    → HasScores (risk_classification_precision_recall_f1 runs by_id)
unfolding risk_classification_precision_recall_f1
risk_classification-HasScores runs by_id = (
  class_score-IsScore low (pairs runs by_id),
  class_score-IsScore medium (pairs runs by_id),
  class_score-IsScore high (pairs runs by_id),
)

-- Every rate, over any runs and scenarios, is none where there is nothing to divide by, and otherwise
-- between 0% and 100%.
pub rates_in_range :
    (runs : List RunRecord) (by_id : Dict ScenarioTruth)
    → IsProportion (unsafe_action_prevention_rate runs by_id).0
      × IsProportion (unsafe_action_prevention_rate runs by_id).1
      × IsProportion (approval_gate_compliance runs)
      × IsProportion (redundancy_floor_override_rate runs)
      × IsProportion (exactly_once_guarantee_rate runs)
      × IsProportion (staleness_detection_rate runs by_id).0
      × IsProportion (staleness_detection_rate runs by_id).1
      × IsProportion (diagnosis_accuracy runs by_id)
      × IsProportion (remediation_success_rate runs)
      × IsProportion (rollback_success_rate runs)
      × IsProportion (audit_completeness runs)
      × IsProportion (policy_override_rate runs)
unfolding unsafe_action_prevention_rate approval_gate_compliance redundancy_floor_override_rate
    exactly_once_guarantee_rate staleness_detection_rate diagnosis_accuracy remediation_success_rate
    rollback_success_rate audit_completeness policy_override_rate
rates_in_range runs by_id = (
  percent-IsProportion _ _,
  percent-IsProportion _ _,
  percent-IsProportion _ _,
  percent-IsProportion _ _,
  percent-IsProportion _ _,
  percent-IsProportion _ _,
  percent-IsProportion _ _,
  percent-IsProportion _ _,
  percent-IsProportion _ _,
  percent-IsProportion _ _,
  percent-IsProportion _ _,
  percent-IsProportion _ _,
)
