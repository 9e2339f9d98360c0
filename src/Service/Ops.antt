-- ===== src/Service/Ops.antt =====
-- src/env/mock_service/state.py: the methods that change a mock service. Each returns the new state.
use durable_approval_gated_r.Prelude.{
  ℕ, ◌+◌, String, Bool, true, false, not, Option, [], ◌∷◌, ◌++◌, ltb, ◌==◌, if◌then◌else◌, any,
  filter, length, str_eq,
}
use durable_approval_gated_r.Prelude.Dict.{lookup, insert}
use durable_approval_gated_r.Act.{
  Result, ok, raised, no_disk_surface, no_prior_version, map_result, and_then,
}
use durable_approval_gated_r.Service.State.{
  FaultType, memory_leak, high_error_rate, cpu_spike, service_down, disk_full, FaultRate,
  ServiceState, rate_magnitude, rate_error_rate, baseline_memory_pct, baseline_cpu_pct,
  baseline_disk_pct, baseline_error_rate, baseline_replicas, baseline_config,
  baseline_version_history, last, but_last, deployed_version,
}

abbrev fault_code : FaultType → ℕ
fault_code memory_leak = 0
fault_code high_error_rate = 1
fault_code cpu_spike = 2
fault_code service_down = 3
fault_code disk_full = 4

abbrev pub same_fault : FaultType → FaultType → Bool
same_fault f g = fault_code f == fault_code g

-- The fields that a fault writes.
abbrev hurt : FaultType → FaultRate → ServiceState → Result ServiceState
hurt memory_leak rate s = ok (record s { memory_pct = rate_magnitude rate })
hurt cpu_spike rate s = ok (record s { cpu_pct = rate_magnitude rate })
hurt high_error_rate rate s = ok (record s { error_rate = rate_error_rate rate })
hurt service_down rate s = ok (record s { forced_down = true; error_rate = 100 })
hurt disk_full rate s =
    if s.has_disk then ok (record s { disk_pct = rate_magnitude rate }) else raised no_disk_surface

abbrev note_fault : FaultType → ServiceState → ServiceState
note_fault fault s = record s {
  active_faults =
      if any (same_fault fault) s.active_faults
      then s.active_faults
      else s.active_faults ++ fault ∷ [];
}

unfoldable pub apply_fault : FaultType → FaultRate → ServiceState → Result ServiceState
apply_fault fault rate s = map_result (note_fault fault) (hurt fault rate s)

-- Clears transient faults but not disk usage.
abbrev clear_transient : ServiceState → ServiceState
clear_transient s = record s {
  memory_pct = baseline_memory_pct;
  cpu_pct = baseline_cpu_pct;
  error_rate = baseline_error_rate;
  forced_down = false;
  active_faults = filter (same_fault disk_full) s.active_faults;
}

unfoldable pub restart : ServiceState → ServiceState
restart s = clear_transient (record s { restart_count = s.restart_count + 1 })

unfoldable pub clean_disk : ServiceState → Result ServiceState
clean_disk s =
    if s.has_disk
    then ok (record s {
      disk_pct = baseline_disk_pct;
      active_faults = filter (λ f. not (same_fault disk_full f)) s.active_faults;
    })
    else raised no_disk_surface

-- The old number of replicas, and the new state.
unfoldable pub scale : ℕ → ServiceState → ℕ × ServiceState
scale replicas s = (s.replicas, record s { replicas = replicas })

unfoldable pub set_config : String → String → ServiceState → Option String × ServiceState
set_config key value s = (lookup key s.config, record s { config = insert key value s.config })

abbrev pop_version : ServiceState → ServiceState
pop_version s = clear_transient (record s { version_history = but_last s.version_history })

-- (the version left, the version current now), and the new state.
unfoldable pub rollback : ServiceState → Result (String × String × ServiceState)
unfolding deployed_version
rollback s =
    if ltb (length s.version_history) 2
    then raised no_prior_version
    else and_then (last s.version_history) (λ previous.
      map_result (λ current. (previous, current, pop_version s)) (deployed_version (pop_version s)))

abbrev push_version : String → ServiceState → String → String × ServiceState
push_version version s previous = (
  previous,
  if str_eq version previous
      then s
      else record s { version_history = s.version_history ++ version ∷ [] },
)

-- The version that was current, and the new state.
unfoldable pub deploy : String → ServiceState → Result (String × ServiceState)
unfolding deployed_version
deploy version s = map_result (push_version version s) (deployed_version s)

unfoldable pub reset : ServiceState → ServiceState
reset s = record s {
  memory_pct = baseline_memory_pct;
  cpu_pct = baseline_cpu_pct;
  disk_pct = baseline_disk_pct;
  error_rate = baseline_error_rate;
  forced_down = false;
  restart_count = 0;
  active_faults = [];
  replicas = baseline_replicas;
  config = baseline_config;
  version_history = baseline_version_history;
}
