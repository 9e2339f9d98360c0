-- ===== src/Eval/Sandbox.antt =====
-- `build_sandbox` and the heuristic stand-ins of src/eval/runner.py, and the scripted ones of
-- src/chaos/agent_process.py.
use Prim.Native.String.{◌++◌ as append}
use durable_approval_gated_r.Prelude.{
  ℕ, String, true, false, Option, none, some, List, [], ◌∷◌, ltb, if◌then◌else◌, str_eq,
}
use durable_approval_gated_r.Prelude.Dict.{Dict, lookup}
use durable_approval_gated_r.Act.{Result, ok, map_result, index_out_of_range, raised}
use durable_approval_gated_r.Action.{split_action}
use durable_approval_gated_r.Service.{new_service, baseline_replicas}
use durable_approval_gated_r.Records.{Row, new_repository}
use durable_approval_gated_r.World.{World}
use durable_approval_gated_r.App.{DiskReply}
use durable_approval_gated_r.Observations.{ServiceObs, Observations}
use durable_approval_gated_r.Policy.{RiskTier, low, medium, high, Situational}
use durable_approval_gated_r.Execution.{no_parameters}
use durable_approval_gated_r.Fingerprint.{Fields}
use durable_approval_gated_r.Agent.State.{
  AgentRuntimeContext, ReplanReason, Proposal, Classification, initial_state,
}
use durable_approval_gated_r.Agent.Graph.{Config}

abbrev pub seed_records : List Row
seed_records =
    record { id = 1; kind = "order"; payload = "order-1001: shipped" }
    ∷ record { id = 2; kind = "order"; payload = "order-1002: pending" }
    ∷ record { id = 3; kind = "order"; payload = "order-1003: delivered" }
    ∷ record { id = 4; kind = "session"; payload = "session-a1: active" }
    ∷ record { id = 5; kind = "session"; payload = "session-a2: expired" }
    ∷ record { id = 6; kind = "cache_entry"; payload = "cache-key-42: stale" }
    ∷ []

abbrev replicas_or : Option ℕ → ℕ
replicas_or none = baseline_replicas
replicas_or (some n) = n

-- `build_sandbox(None, initial_replicas)`
unfoldable pub build_sandbox : Dict ℕ → World
unfolding lookup new_service new_repository
build_sandbox initial_replicas = record {
  clients =
      (
        "service_a",
        new_service "service_a" false (replicas_or (lookup "service_a" initial_replicas)),
      )
      ∷ (
        "service_b",
        new_service "service_b" false (replicas_or (lookup "service_b" initial_replicas)),
      )
      ∷ (
        "service_c",
        new_service "service_c" true (replicas_or (lookup "service_c" initial_replicas)),
      )
      ∷ [];
  store = [];
  records = new_repository seed_records;
}

-- `_ScriptedReasoner`
unfoldable pub scripted_diagnose : String → ℕ → Observations → Result String
scripted_diagnose target turn observations = ok (append "chaos stub diagnosis for " target)

unfoldable pub scripted_propose :
    String → String → ℕ → Observations → String → Option ReplanReason → Result Proposal
scripted_propose tool target turn observations diagnosis context = ok (record {
  tool = tool;
  target = target;
  rationale = "chaos stub rationale";
  parameters = no_parameters;
})

-- `_ScriptedRiskClassifier`
unfoldable pub scripted_classify :
    RiskTier → ℕ → String → String → Option String → Option Situational → Result Classification
scripted_classify tier turn action diagnosis rationale situational =
    ok (record { tier = tier; rationale = "chaos stub" })

-- The service, the signal and the score of `_worst_signal`, with the score in hundredths.
pub record Signal : Type 0 where
  pub service : String
  pub signal : String
  pub score : ℕ

abbrev worse : Signal → Signal → Signal
worse best s = if ltb best.score s.score then s else best

abbrev with_disk : String → Option DiskReply → Signal → Signal
with_disk name none best = best
with_disk name (some disk) best =
    worse best (record { service = name; signal = "disk_pct"; score = disk.used_pct })

-- The first of the largest signals of a service.
unfoldable service_signal : String → ServiceObs → Signal
service_signal name obs = with_disk name obs.disk (
    worse
      (worse (record { service = name; signal = "memory_pct"; score = obs.metrics.memory_pct })
        (record { service = name; signal = "cpu_pct"; score = obs.metrics.cpu_pct }))
      (record { service = name; signal = "error_rate_pct"; score = obs.metrics.error_rate }))

unfoldable worst_of : Signal → Dict ServiceObs → Signal
unfolding service_signal
worst_of best [] = best
worst_of best ((name, obs) ∷ services) = worst_of (worse best (service_signal name obs)) services

abbrev worst_from : Dict ServiceObs → Result Signal
worst_from [] = raised index_out_of_range
worst_from ((name, obs) ∷ services) = ok (worst_of (service_signal name obs) services)

-- `_worst_signal`: of the first service any signal is taken, since -1.0 is below every score.
unfoldable worst_signal : Observations → Result Signal
unfolding worst_of service_signal
worst_signal observations = worst_from observations.services

-- `HeuristicDiagnosisReasoner.diagnose`; `format` is Python's `f"{score:.0f}"`.
unfoldable pub heuristic_diagnose : (ℕ → String) → ℕ → Observations → Result String
unfolding worst_signal
heuristic_diagnose format turn observations =
    map_result
      (λ worst. append worst.service (
        append " shows the worst signal: " (append worst.signal (append "=" (format worst.score)))))
      (worst_signal observations)

-- `HeuristicDiagnosisReasoner.propose_action`
unfoldable pub heuristic_propose : ℕ → Observations → String → Option ReplanReason → Result Proposal
unfolding worst_signal
heuristic_propose turn observations diagnosis context =
    map_result
      (λ worst. record {
        tool = if str_eq worst.signal "disk_pct" then "clear_cache" else "restart_service";
        target = worst.service;
        rationale =
            append "heuristic reasoner: "
              (append worst.service (append "'s worst signal was " worst.signal));
        parameters = no_parameters;
      })
      (worst_signal observations)

-- `HeuristicRiskClassifier._TIERS`
abbrev tiers : Dict RiskTier
tiers =
    ("clear_cache", low)
    ∷ ("scale_service", low)
    ∷ ("restart_service", medium)
    ∷ ("apply_config_change", medium)
    ∷ ("rollback_deployment", high)
    ∷ ("delete_records", high)
    ∷ []

abbrev tier_or_medium : Option RiskTier → RiskTier
tier_or_medium none = medium
tier_or_medium (some tier) = tier

abbrev tier_text : RiskTier → String
tier_text low = "low"
tier_text medium = "medium"
tier_text high = "high"

abbrev classified_as : String → RiskTier → Classification
classified_as tool tier = record {
  tier = tier;
  rationale =
      append "heuristic classifier: " (append tool (append " defaults to " (tier_text tier)));
}

-- `HeuristicRiskClassifier.classify`
unfoldable pub heuristic_classify :
    ℕ → String → String → Option String → Option Situational → Result Classification
unfolding lookup split_action
heuristic_classify turn action diagnosis rationale situational =
    map_result (λ p. classified_as p.0 (tier_or_medium (lookup p.0 tiers))) (split_action action)

-- A context with the scripted reasoner and classifier; the digest and the clock are arguments.
abbrev pub scripted_context :
    String → String → RiskTier → (Fields → String) → (ℕ → ℕ) → AgentRuntimeContext
scripted_context tool target tier digest clock = record {
  diagnose = scripted_diagnose target;
  propose_action = scripted_propose tool target;
  classify = scripted_classify tier;
  digest = digest;
  clock = clock;
}

-- A run that has not started.
abbrev pub new_run : String → World → Config
new_run run_id world = record { state = initial_state run_id; world = world; audit = []; turn = 0 }
