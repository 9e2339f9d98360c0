-- ===== src/Eval/Faults.antt =====
-- src/env/fault_injector.py over in-process clients, and `_apply_staleness_change` of
-- src/eval/runner.py.
use durable_approval_gated_r.Prelude.{
  String, Option, none, some, [], ◌∷◌, map, if◌then◌else◌, str_eq,
}
use durable_approval_gated_r.Prelude.Dict.{Dict, lookup}
use durable_approval_gated_r.Act.{
  Result, ok, raised, required, not_a_fault, unknown_change, unknown_service, Act, pure, raise,
  lift, ◌>>=◌,
}
use durable_approval_gated_r.Service.{
  ServiceState, FaultType, memory_leak, high_error_rate, cpu_spike, service_down, disk_full,
  FaultRate, low, medium, high, Metrics, reset,
}
use durable_approval_gated_r.App.{
  FaultReply, HealthReply, get_health, get_metrics, admin_fault, admin_reset, post_rollback,
}
use durable_approval_gated_r.Records.{get_by_kind, delete}
use durable_approval_gated_r.World.{World, request}

-- The value of each fault type, and of each rate.
abbrev pub fault_types : Dict FaultType
fault_types =
    ("memory_leak", memory_leak)
    ∷ ("high_error_rate", high_error_rate)
    ∷ ("cpu_spike", cpu_spike)
    ∷ ("service_down", service_down)
    ∷ ("disk_full", disk_full)
    ∷ []

abbrev pub fault_rates : Dict FaultRate
fault_rates = ("low", low) ∷ ("medium", medium) ∷ ("high", high) ∷ []

abbrev or_not_a_fault {ℓ} : {A : Type ℓ} → String → Option A → Result A
or_not_a_fault value none = raised (not_a_fault value)
or_not_a_fault value (some a) = ok a

-- `FaultType(value)`
unfoldable pub parse_fault_type : String → Result FaultType
unfolding lookup
parse_fault_type value = or_not_a_fault value (lookup value fault_types)

-- `FaultRate(value)`
unfoldable pub parse_fault_rate : String → Result FaultRate
unfolding lookup
parse_fault_rate value = or_not_a_fault value (lookup value fault_rates)

abbrev client_or_raise : String → Option ServiceState → Result ServiceState
client_or_raise service none = raised (unknown_service service)
client_or_raise service (some s) = ok s

-- `FaultInjector._require_client`, its `ValueError` as `unknown_service`.
unfoldable pub require_client : String → Act World ServiceState
require_client service w = (client_or_raise service (lookup service w.clients), w)

-- `FaultInjector.inject`
unfoldable pub inject : String → String → String → Act World FaultReply
unfolding require_client parse_fault_type parse_fault_rate
inject service fault_type rate = do
  client ← require_client service
  fault ← lift (parse_fault_type fault_type)
  magnitude ← lift (parse_fault_rate rate)
  request service (admin_fault fault magnitude)

-- `FaultInjector.get_health`
unfoldable pub injector_health : String → Act World HealthReply
injector_health service = request service get_health

-- `FaultInjector.get_metrics`
unfoldable pub injector_metrics : String → Act World Metrics
injector_metrics service = request service get_metrics

-- `FaultInjector.reset_all` without a database.
unfoldable pub reset_all : World → World
unfolding reset
reset_all w = record w { clients = map (λ p. (p.0, reset p.1)) w.clients }

-- A dictionary that describes a fault or a change; a missing key is `none`.
pub record Change : Type 0 where
  pub action : Option String
  pub service : Option String
  pub fault_type : Option String
  pub rate : Option String
  pub kind : Option String

abbrev or_high : Option String → String
or_high none = "high"
or_high (some rate) = rate

abbrev pub delete_kind : String → World → World
delete_kind kind w = record w {
  records = delete (map (λ r. r.id) (get_by_kind (some kind) 1000000 w.records)) w.records;
}

abbrev change_records : String → Act {0, 0} World Unit
change_records kind w = (ok tt, delete_kind kind w)

-- `_apply_staleness_change`
unfoldable pub apply_staleness_change : Change → Act {0, 0} World Unit
unfolding inject
apply_staleness_change change = do
  action ← lift (required "action" change.action)
  if str_eq action "reset"
      then (do
        service ← lift (required "service" change.service)
        reply ← request service admin_reset
        pure tt)
      else if str_eq action "inject_fault"
      then (do
        service ← lift (required "service" change.service)
        fault_type ← lift (required "type" change.fault_type)
        reply ← inject service fault_type (or_high change.rate)
        pure tt)
      else if str_eq action "rollback"
      then (do
        service ← lift (required "service" change.service)
        reply ← request service post_rollback
        pure tt)
      else if str_eq action "delete_records"
      then (do kind ← lift (required "kind" change.kind); change_records kind)
      else raise (unknown_change action)
