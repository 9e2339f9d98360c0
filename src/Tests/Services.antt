-- ===== src/Tests/Services.antt =====
-- The mock service, the fingerprint, the policy and the names of actions at concrete inputs.
use durable_approval_gated_r.Prelude.{
  ℕ, ◌≡◌, ◌≢◌, ◌⊎◌, ◌≤◌, ◌↔◌, refl, String, true, false, none, [], ◌∷◌, arith, mem_text, inl,
  eq_iff,
}
use durable_approval_gated_r.Prelude.Dict.{lookup, insert}
use durable_approval_gated_r.Act.{Result, ok, raised}
use durable_approval_gated_r.Action.{split_action}
use durable_approval_gated_r.Service.{
  ServiceState, FaultType, FaultRate, Metrics, healthy, new_service, metrics, clean_disk, rollback,
  deploy,
}
use durable_approval_gated_r.App.Invariant.{
  IsValid, Request, serve, serve_all, serve-IsValid, metrics_after_requests,
}
use durable_approval_gated_r.Observations.{ServiceObs, Observations}
use durable_approval_gated_r.Fingerprint.{Fields, validate_proposal, compute_fingerprint}
use durable_approval_gated_r.Fingerprint.Scope.{
  validated_has_fingerprint, other_service_is_irrelevant, records_are_irrelevant,
}
use durable_approval_gated_r.Policy.{low, high, forced_high_tools, apply_policy}
use durable_approval_gated_r.App.Repair.{rollback-deploy}
use durable_approval_gated_r.Service.{deployed_version}
use durable_approval_gated_r.Policy.Floor.{severity, IsThrashing, apply_policy_raises}

abbrev broken : ServiceState
broken = record (new_service "service_c" true 2) { forced_down = true; disk_pct = 96 }

abbrev faulty : Request
faulty = Request.fault FaultType.disk_full FaultRate.high

serve-IsValid_example : IsValid (serve faulty broken)
unfolding new_service
serve-IsValid_example = serve-IsValid faulty broken (record {
  has_version = omega arith;
  memory_in_range = omega arith;
  cpu_in_range = omega arith;
  disk_in_range = omega arith;
  error_in_range = omega arith;
  disk_fault_has_disk = inl refl;
})

metrics_after_requests_example :
    IsValid (serve_all (Request.roll_back ∷ faulty ∷ []) (new_service "service_a" false 2))
    × ((m : Metrics) × (metrics
            (serve_all (Request.roll_back ∷ faulty ∷ []) (new_service "service_a" false 2))
          ≡ ok m))
metrics_after_requests_example =
    metrics_after_requests "service_a" false 2 (Request.roll_back ∷ faulty ∷ [])

abbrev or_broken : Result ServiceState → ServiceState
or_broken (ok s) = s
or_broken (raised e) = broken

abbrev cleaned : ServiceState
cleaned = or_broken (clean_disk broken)

clean_runs : clean_disk broken ≡ ok cleaned
unfolding clean_disk new_service
clean_runs = refl

abbrev upgraded : ServiceState
upgraded = record broken { version_history = "v1" ∷ "v2" ∷ [] }

abbrev or_first : Result (String × String × ServiceState) → String × String × ServiceState
or_first (ok out) = out
or_first (raised e) = ("", "", broken)

abbrev rolled_back : ServiceState
rolled_back = (or_first (rollback upgraded)).2

rollback_runs : rollback upgraded ≡ ok ("v2", "v1", rolled_back)
unfolding rollback new_service
rollback_runs = refl

abbrev or_last : Result (String × ServiceState) → ServiceState
or_last (ok (previous, s)) = s
or_last (raised e) = broken

abbrev redeployed : ServiceState
redeployed = or_last (deploy "v2" rolled_back)

deploy_runs : deploy "v2" rolled_back ≡ ok ("v1", redeployed)
unfolding rollback deploy new_service
deploy_runs = refl

differ : ◌≢◌ {A = String} "v2" "v1"
differ e = ground (arith, eq_iff "v2" "v1", e)

services_differ : ◌≢◌ {A = String} "service_b" "service_a"
services_differ e = ground (arith, eq_iff "service_b" "service_a", e)

tools_differ : ◌≢◌ {A = String} "restart_service" "delete_records"
tools_differ e = ground (arith, eq_iff "restart_service" "delete_records", e)

rollback-deploy_example :
    (redeployed.version_history ≡ upgraded.version_history)
    × (deployed_version redeployed ≡ ok "v2")
rollback-deploy_example =
    rollback-deploy upgraded rolled_back redeployed "v2" "v1" "v1" rollback_runs differ deploy_runs

apply_policy_raises_example :
    (severity low ≤ severity (apply_policy "delete_records" low none))
    × ((apply_policy "delete_records" low none ≡ high)
        ↔ ((mem_text "delete_records" forced_high_tools ≡ true) ⊎ (low ≡ high)))
    × ((apply_policy "delete_records" low none ≡ low) ↔ (
        (mem_text "delete_records" forced_high_tools ≡ false) × (low ≡ low) × ¬ IsThrashing none))
apply_policy_raises_example = apply_policy_raises "delete_records" low none

-- What a sweep sees of a service with an error rate.
abbrev pub seen : String → ℕ → ServiceObs
seen service rate = record {
  health = record { service = service; status = healthy; restart_count = 0 };
  metrics = record {
    service = service;
    memory_pct = 20;
    cpu_pct = 15;
    error_rate = rate;
    restart_count = 0;
    replicas = 1;
    deployed_version = "v1.2.0";
    disk_pct = none;
  };
  logs = [];
  disk = none;
}

abbrev pub observations : Observations
observations = record {
  services = ("service_a", seen "service_a" 0) ∷ ("service_b", seen "service_b" 0) ∷ [];
  records = record { id = 1; kind = "order"; payload = "shipped" } ∷ [];
}

abbrev digest : Fields → String
digest fields = "digest"

validates : validate_proposal observations "restart_service:service_a" ≡ ok none
unfolding validate_proposal split_action lookup
validates = refl

splits : split_action "restart_service:service_a" ≡ ok ("restart_service", "service_a")
unfolding split_action
splits = refl

validated_has_fingerprint_example :
    (f : String) × (compute_fingerprint digest observations "restart_service:service_a" ≡ ok f)
validated_has_fingerprint_example =
    validated_has_fingerprint digest observations "restart_service:service_a" validates

other_service_is_irrelevant_example :
    compute_fingerprint digest
      (record observations {
        services = insert "service_b" (seen "service_b" 60) observations.services;
      })
      "restart_service:service_a"
    ≡ compute_fingerprint digest observations "restart_service:service_a"
other_service_is_irrelevant_example =
    other_service_is_irrelevant digest observations "restart_service:service_a" "restart_service"
      "service_a" "service_b" (seen "service_b" 60) splits services_differ

records_are_irrelevant_example :
    compute_fingerprint digest (record observations { records = [] }) "restart_service:service_a"
    ≡ compute_fingerprint digest observations "restart_service:service_a"
records_are_irrelevant_example =
    records_are_irrelevant digest observations "restart_service:service_a" "restart_service"
      "service_a" [] splits tools_differ
