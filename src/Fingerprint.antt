-- ===== src/Fingerprint.antt =====
-- src/revalidation/fingerprint.py: the observed fields that an action depends on, their digest, and
-- the check that a proposal is about something that exists.
pub mod Scope
use durable_approval_gated_r.Prelude.{
  ℕ, String, Bool, false, not, ◌&&◌, ◌||◌, Option, none, some, List, [], ◌∷◌, map, str_eq, filter,
  if◌then◌else◌, mem_text, is_some,
}
use durable_approval_gated_r.Prelude.Dict.{Dict, lookup}
use durable_approval_gated_r.Act.{unknown_tool, Result, ok, raised, required, map_result, and_then}
use durable_approval_gated_r.Action.{known_tools, record_kinds, split_action}
use durable_approval_gated_r.Service.{Status}
use durable_approval_gated_r.Records.{sorted_by_id}
use durable_approval_gated_r.Observations.{ServiceObs, Observations}

pub data FieldValue : Type 0 where
  text : String → FieldValue
  number : ℕ → FieldValue
  status_is : Status → FieldValue
  maybe : Option ℕ → FieldValue
  numbers : List ℕ → FieldValue

-- The dictionary that `json.dumps(fields, sort_keys=True)` writes.
abbrev pub Fields : Type 0
Fields = List (String × FieldValue)

-- `{**health, **metrics}`: of a key in both, the metrics' value counts.
abbrev combined : ServiceObs → Dict FieldValue
combined obs =
    ("service", text obs.metrics.service)
    ∷ ("memory_pct", number obs.metrics.memory_pct)
    ∷ ("cpu_pct", number obs.metrics.cpu_pct)
    ∷ ("error_rate", number obs.metrics.error_rate)
    ∷ ("restart_count", number obs.metrics.restart_count)
    ∷ ("replicas", number obs.metrics.replicas)
    ∷ ("deployed_version", text obs.metrics.deployed_version)
    ∷ ("disk_pct", maybe obs.metrics.disk_pct)
    ∷ ("status", status_is obs.health.status)
    ∷ []

-- `{field: combined[field] for field in fields}`
unfoldable pub select_fields : List String → Dict FieldValue → Result Fields
unfolding lookup
select_fields [] values = ok []
select_fields (field ∷ fields) values =
    and_then (required field (lookup field values))
      (λ value. map_result (λ rest. (field, value) ∷ rest) (select_fields fields values))

-- `_service_fields`
unfoldable pub service_fields : Observations → String → List String → Result Fields
unfolding select_fields
service_fields observations service fields =
    and_then (required service (lookup service observations.services))
      (λ obs. select_fields fields (combined obs))

abbrev disk_fields : Observations → String → Result Fields
disk_fields observations target =
    and_then (required target (lookup target observations.services)) (λ obs.
      map_result (λ disk. ("disk_pct", number disk.used_pct) ∷ []) (required "disk" obs.disk))

abbrev record_fields : Observations → String → Fields
record_fields observations target =
    ("kind", text target)
    ∷ (
      "ids",
      numbers (
          map (λ r. r.id) (sorted_by_id (filter (λ r. str_eq r.kind target) observations.records))),
    )
    ∷ []

unfoldable pub relevant_fields : Observations → String → String → Result Fields
unfolding service_fields
relevant_fields observations tool target =
    if str_eq tool "restart_service" || str_eq tool "scale_service"
    then service_fields observations target
        ("status" ∷ "memory_pct" ∷ "cpu_pct" ∷ "error_rate" ∷ [])
    else if str_eq tool "clear_cache"
    then disk_fields observations target
    else if str_eq tool "rollback_deployment"
    then service_fields observations target ("status" ∷ "deployed_version" ∷ [])
    else if str_eq tool "apply_config_change"
    then service_fields observations target ("status" ∷ [])
    else if str_eq tool "delete_records"
    then ok (record_fields observations target)
    else raised (unknown_tool tool)

-- Why a proposal is refused.
pub data InvalidReason : Type 0 where
  not_a_tool not_a_record_kind not_a_service no_disk_surface : String → InvalidReason

-- `"disk" not in observations["services"][target]`
abbrev lacks_disk : Option ServiceObs → Bool
lacks_disk none = false
lacks_disk (some obs) = not (is_some obs.disk)

abbrev pub validate : Observations → String → String → Option InvalidReason
validate observations tool target =
    if not (mem_text tool known_tools)
    then some (not_a_tool tool)
    else if str_eq tool "delete_records"
    then (if mem_text target record_kinds then none else some (not_a_record_kind target))
    else if not (is_some (lookup target observations.services))
    then some (not_a_service target)
    else if str_eq tool "clear_cache" && lacks_disk (lookup target observations.services)
    then some (no_disk_surface target)
    else none

unfoldable pub validate_proposal : Observations → String → Result (Option InvalidReason)
validate_proposal observations proposed_action =
    map_result (λ p. validate observations p.0 p.1) (split_action proposed_action)

-- `digest` is the first 16 digits of the SHA-256 of the fields' canonical JSON text.
module _ (digest : Fields → String) where
  unfoldable pub compute_fingerprint : Observations → String → Result String
  compute_fingerprint observations proposed_action =
      and_then (split_action proposed_action)
        (λ p. map_result digest (relevant_fields observations p.0 p.1))
