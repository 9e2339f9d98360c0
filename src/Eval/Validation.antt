-- ===== src/Eval/Validation.antt =====
-- src/eval/scenario_validation.py: what a scenario must satisfy. An error message is a constructor with
-- the text that it names.
use durable_approval_gated_r.Prelude.{
  true, ℕ, String, Bool, false, not, ◌&&◌, Option, none, some, List, [], ◌∷◌, ◌++◌, map, any,
  if◌then◌else◌, str_eq, mem_text, is_some, ltb, ◌==◌, filter, length,
}
use durable_approval_gated_r.Prelude.Dict.{Dict}
use durable_approval_gated_r.Action.{known_tools, record_kinds, split_colon}
use durable_approval_gated_r.Observations.{known_services, has_disk}
use durable_approval_gated_r.Eval.Faults.{fault_types, fault_rates, Change}

abbrev pub required_risk_tiers : List String
required_risk_tiers = "low" ∷ "medium" ∷ "high" ∷ []

abbrev pub staleness_actions : List String
staleness_actions = "reset" ∷ "inject_fault" ∷ "rollback" ∷ "delete_records" ∷ []

abbrev required_coverage : Dict ℕ
required_coverage =
    ("low_risk", 15) ∷ ("medium_high_risk", 20) ∷ ("trap", 8) ∷ ("staleness", 7) ∷ []

pub data ValidationError : Type 0 where
  unknown_service unknown_fault_type unknown_fault_rate : Option String → ValidationError
  no_disk_surface not_an_action unknown_tool unknown_record_kind : String → ValidationError
  unknown_target unknown_risk_tier : String → ValidationError
  unknown_change unknown_kind : Option String → ValidationError
  missing_keys not_a_subset forbidden_overlap staleness_incomplete duplicate_ids : ValidationError
  wrong_coverage : String → ℕ → ℕ → ValidationError

-- `value in names`, where the value may be `None`.
abbrev pub known : Option String → List String → Bool
known none names = false
known (some s) names = mem_text s names

abbrev keys {ℓ} : {A : Type ℓ} → Dict A → List String
keys d = map (λ p. p.0) d

abbrev is_disk_full : Option String → Bool
is_disk_full none = false
is_disk_full (some s) = str_eq s "disk_full"

abbrev or_empty : Option String → String
or_empty none = ""
or_empty (some s) = s

abbrev error_if : Bool → ValidationError → List ValidationError
error_if b e = if b then e ∷ [] else []

-- `_validate_fault_injection`
unfoldable pub validate_fault_injection : Change → List ValidationError
unfolding has_disk
validate_fault_injection fault =
    if not (known fault.service known_services)
    then unknown_service fault.service ∷ []
    else if not (known fault.fault_type (keys fault_types))
    then unknown_fault_type fault.fault_type ∷ []
    else error_if (not (known fault.rate (keys fault_rates))) (unknown_fault_rate fault.rate)
      ++ error_if (is_disk_full fault.fault_type && not (has_disk (or_empty fault.service)))
          (no_disk_surface (or_empty fault.service))

abbrev target_errors : String → String → List ValidationError
target_errors tool target =
    if str_eq target "*"
    then []
    else if str_eq tool "delete_records"
    then error_if (not (mem_text target record_kinds)) (unknown_record_kind target)
    else error_if (not (mem_text target known_services)) (unknown_target target)

abbrev ref_errors : String → Option (String × String) → List ValidationError
ref_errors action none = not_an_action action ∷ []
ref_errors action (some (tool, target)) =
    error_if (not (mem_text tool known_tools)) (unknown_tool tool) ++ target_errors tool target

-- `_validate_action_ref`
unfoldable pub validate_action_ref : String → List ValidationError
unfolding split_colon
validate_action_ref action = ref_errors action (split_colon action)

-- `_validate_staleness_change`
unfoldable pub validate_staleness_change : Change → List ValidationError
unfolding validate_fault_injection
validate_staleness_change change =
    if not (known change.action staleness_actions)
    then unknown_change change.action ∷ []
    else if known change.action ("inject_fault" ∷ [])
    then validate_fault_injection change
    else if known change.action ("reset" ∷ "rollback" ∷ [])
    then error_if (not (known change.service known_services)) (unknown_service change.service)
    else error_if (not (known change.kind record_kinds)) (unknown_kind change.kind)

-- A scenario; a missing key is `none`. Of `name`, `expected_diagnosis` and `verification` only the
-- presence counts, and of `expected_drift_detected`; of `staleness_injection` the key `changes`.
pub record Scenario : Type 0 where
  pub id : Option String
  pub category : Option String
  pub fault_injection : Option Change
  pub correct_actions : Option (List String)
  pub acceptable_actions : Option (List String)
  pub forbidden_actions : Option (List String)
  pub expected_risk_tier : Option String
  pub has_name : Bool
  pub has_expected_diagnosis : Bool
  pub has_verification : Bool
  pub staleness_injection : Option (Option (List Change))
  pub has_expected_drift : Bool

-- `not (REQUIRED_KEYS - scenario.keys())`
unfoldable pub has_required_keys : Scenario → Bool
has_required_keys s =
    is_some s.id
    && is_some s.category
    && is_some s.fault_injection
    && is_some s.correct_actions
    && is_some s.acceptable_actions
    && is_some s.forbidden_actions
    && is_some s.expected_risk_tier
    && s.has_name
    && s.has_expected_diagnosis
    && s.has_verification

abbrev or_nil : Option (List String) → List String
or_nil none = []
or_nil (some actions) = actions

abbrev pub fault_errors : Option Change → List ValidationError
fault_errors none = []
fault_errors (some fault) = validate_fault_injection fault

unfoldable action_errors : List String → List ValidationError
unfolding validate_action_ref
action_errors [] = []
action_errors (action ∷ actions) = validate_action_ref action ++ action_errors actions

unfoldable pub change_errors : List Change → List ValidationError
unfolding validate_staleness_change
change_errors [] = []
change_errors (change ∷ changes) = validate_staleness_change change ++ change_errors changes

-- `staleness_injection.get("changes", [])`
abbrev pub or_no_changes : Option (List Change) → List Change
or_no_changes none = []
or_no_changes (some changes) = changes

abbrev staleness_errors : Option (Option (List Change)) → Bool → List ValidationError
staleness_errors none expected = staleness_incomplete ∷ []
staleness_errors (some injection) expected =
    if expected then change_errors (or_no_changes injection) else staleness_incomplete ∷ []

-- `validate_scenario`
unfoldable pub validate_scenario : Scenario → List ValidationError
unfolding validate_fault_injection has_required_keys action_errors change_errors
validate_scenario s =
    let correct = or_nil s.correct_actions in
    if not (has_required_keys s)
    then missing_keys ∷ []
    else fault_errors s.fault_injection
      ++ error_if (not (known s.expected_risk_tier required_risk_tiers))
          (unknown_risk_tier (or_empty s.expected_risk_tier))
      ++ action_errors correct
      ++ action_errors (or_nil s.acceptable_actions)
      ++ action_errors (or_nil s.forbidden_actions)
      ++ error_if (any (λ a. not (mem_text a (or_nil s.acceptable_actions))) correct) not_a_subset
      ++ error_if (any (λ a. mem_text a (or_nil s.forbidden_actions)) correct) forbidden_overlap
      ++ (if known s.category ("staleness" ∷ [])
          then staleness_errors s.staleness_injection s.has_expected_drift
          else [])

abbrev same_id : Option String → Option String → Bool
same_id none none = true
same_id none (some t) = false
same_id (some s) none = false
same_id (some s) (some t) = str_eq s t

abbrev occurrences : Option String → List (Option String) → ℕ
occurrences id ids = length (filter (same_id id) ids)

abbrev category_count : String → List Scenario → ℕ
category_count category scenarios =
    length (filter (λ s. known s.category (category ∷ [])) scenarios)

unfoldable scenario_errors : List Scenario → List ValidationError
unfolding validate_scenario
scenario_errors [] = []
scenario_errors (s ∷ scenarios) = validate_scenario s ++ scenario_errors scenarios

unfoldable coverage_errors : List Scenario → Dict ℕ → List ValidationError
coverage_errors scenarios [] = []
coverage_errors scenarios ((category, required) ∷ rest) =
    error_if (not (category_count category scenarios == required))
      (wrong_coverage category required (category_count category scenarios))
    ++ coverage_errors scenarios rest

-- `validate_scenarios`
unfoldable pub validate_scenarios : List Scenario → List ValidationError
unfolding scenario_errors coverage_errors
validate_scenarios scenarios =
    let ids = map (λ s. s.id) scenarios in
    error_if (any (λ id. ltb 1 (occurrences id ids)) ids) duplicate_ids
    ++ scenario_errors scenarios
    ++ coverage_errors scenarios required_coverage
