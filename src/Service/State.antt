-- ===== src/Service/State.antt =====
-- src/env/mock_service/state.py: what a mock service is and what it reports. A percentage is a natural
-- number and an error rate counts hundredths; the code only stores its own constants and compares them.
use durable_approval_gated_r.Prelude.{
  ℕ, max, String, Bool, false, ◌||◌, ◌&&◌, Option, none, some, List, [], ◌∷◌, ◌++◌, leb,
  if◌then◌else◌, take,
}
use durable_approval_gated_r.Prelude.Dict.{Dict}
use durable_approval_gated_r.Act.{Result, ok, raised, index_out_of_range, map_result}
use mathlib.Core.List.{reverse}

pub data FaultType : Type 0 where
  memory_leak high_error_rate cpu_spike service_down disk_full : FaultType

pub data FaultRate : Type 0 where
  low medium high : FaultRate

pub data Status : Type 0 where
  healthy degraded unhealthy : Status

abbrev pub rate_magnitude : FaultRate → ℕ
rate_magnitude low = 65
rate_magnitude medium = 80
rate_magnitude high = 95

abbrev pub rate_error_rate : FaultRate → ℕ
rate_error_rate low = 15
rate_error_rate medium = 30
rate_error_rate high = 60

abbrev pub baseline_memory_pct : ℕ
baseline_memory_pct = 20

abbrev pub baseline_cpu_pct : ℕ
baseline_cpu_pct = 15

abbrev pub baseline_disk_pct : ℕ
baseline_disk_pct = 30

abbrev pub baseline_error_rate : ℕ
baseline_error_rate = 0

abbrev pub baseline_replicas : ℕ
baseline_replicas = 1

abbrev pub baseline_config : Dict String
baseline_config =
    ("log_level", "info") ∷ ("max_connections", "100") ∷ ("cache_ttl_seconds", "300") ∷ []

abbrev pub baseline_version_history : List String
baseline_version_history = "v1.0.0" ∷ "v1.1.0" ∷ "v1.2.0" ∷ []

abbrev pub degraded_threshold : ℕ
degraded_threshold = 75

abbrev pub unhealthy_threshold : ℕ
unhealthy_threshold = 90

abbrev pub degraded_error_rate : ℕ
degraded_error_rate = 10

abbrev pub unhealthy_error_rate : ℕ
unhealthy_error_rate = 50

pub record ServiceState : Type 0 where
  pub name : String
  pub has_disk : Bool
  pub memory_pct : ℕ
  pub cpu_pct : ℕ
  pub disk_pct : ℕ
  pub error_rate : ℕ
  pub forced_down : Bool
  pub restart_count : ℕ
  pub active_faults : List FaultType
  pub replicas : ℕ
  pub config : Dict String
  pub version_history : List String

-- `ServiceState(name=name, has_disk=has_disk, replicas=replicas)`
unfoldable pub new_service : String → Bool → ℕ → ServiceState
new_service name has_disk replicas = record {
  name = name;
  has_disk = has_disk;
  memory_pct = baseline_memory_pct;
  cpu_pct = baseline_cpu_pct;
  disk_pct = baseline_disk_pct;
  error_rate = baseline_error_rate;
  forced_down = false;
  restart_count = 0;
  active_faults = [];
  replicas = replicas;
  config = baseline_config;
  version_history = baseline_version_history;
}

-- `xs[-1]`
abbrev pub last : List String → Result String
last [] = raised index_out_of_range
last (v ∷ []) = ok v
last (v ∷ w ∷ vs) = last (w ∷ vs)

-- What `xs.pop()` leaves.
abbrev pub but_last : List String → List String
but_last [] = []
but_last (v ∷ []) = []
but_last (v ∷ w ∷ vs) = v ∷ but_last (w ∷ vs)

unfoldable pub deployed_version : ServiceState → Result String
deployed_version s = last s.version_history

unfoldable pub status : ServiceState → Status
status s =
    let worst = max (max s.memory_pct s.cpu_pct) (if s.has_disk then s.disk_pct else 0) in
    if s.forced_down || leb unhealthy_error_rate s.error_rate
    then unhealthy
    else if leb unhealthy_threshold worst
    then unhealthy
    else if leb degraded_threshold worst || leb degraded_error_rate s.error_rate
    then degraded
    else healthy

pub record Metrics : Type 0 where
  pub service : String
  pub memory_pct : ℕ
  pub cpu_pct : ℕ
  pub error_rate : ℕ
  pub restart_count : ℕ
  pub replicas : ℕ
  pub deployed_version : String
  pub disk_pct : Option ℕ

unfoldable pub metrics : ServiceState → Result Metrics
unfolding deployed_version
metrics s =
    map_result
      (λ version. record {
        service = s.name;
        memory_pct = s.memory_pct;
        cpu_pct = s.cpu_pct;
        error_rate = s.error_rate;
        restart_count = s.restart_count;
        replicas = s.replicas;
        deployed_version = version;
        disk_pct = if s.has_disk then some s.disk_pct else none;
      })
      (deployed_version s)

-- A log line without its time and the service's name.
pub data LogLine : Type 0 where
  heartbeat_ok : LogLine
  elevated_error_rate high_memory_usage high_cpu_utilization disk_usage_critical : ℕ → LogLine
  service_unresponsive : LogLine

abbrev line_if : Bool → LogLine → List LogLine
line_if test line = if test then line ∷ [] else []

-- The newest line first, `limit` lines at most.
unfoldable pub logs : ℕ → ServiceState → List LogLine
logs limit s = take limit (
    reverse (
      heartbeat_ok
      ∷ (line_if (leb degraded_error_rate s.error_rate) (elevated_error_rate s.error_rate)
          ++ (line_if (leb degraded_threshold s.memory_pct) (high_memory_usage s.memory_pct)
              ++ (line_if (leb degraded_threshold s.cpu_pct) (high_cpu_utilization s.cpu_pct)
                  ++ (line_if (s.has_disk && leb degraded_threshold s.disk_pct)
                        (disk_usage_critical s.disk_pct)
                      ++ line_if s.forced_down service_unresponsive))))))
