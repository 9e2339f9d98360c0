-- ===== src/Policy.antt =====
-- src/risk/policy.py and src/risk/schemas.py: the deterministic overrides of the classifier's tier.
pub mod Floor
use durable_approval_gated_r.Prelude.{
  ℕ, String, Bool, true, false, not, ◌&&◌, Option, none, some, List, [], ◌∷◌, leb, if◌then◌else◌,
  str_eq, mem_text,
}
use durable_approval_gated_r.Prelude.Dict.{lookup}
use durable_approval_gated_r.Act.{Result, map_result}
use durable_approval_gated_r.Action.{split_action}
use durable_approval_gated_r.Observations.{ServiceObs, Observations}

pub data RiskTier : Type 0 where
  low medium high : RiskTier

abbrev pub forced_high_tools : List String
forced_high_tools = "delete_records" ∷ "rollback_deployment" ∷ []

abbrev min_redundant_replicas : ℕ
min_redundant_replicas = 2

pub record Situational : Type 0 where
  pub replicas : ℕ
  pub restart_count_this_run : ℕ
  pub error_rate : ℕ
  pub memory_pct : ℕ
  pub cpu_pct : ℕ
  pub disk_pct : Option ℕ
  pub has_redundant_replica : Bool

abbrev features_of : Option ServiceObs → Option Situational
features_of none = none
features_of (some obs) = some (record {
  replicas = obs.metrics.replicas;
  restart_count_this_run = obs.metrics.restart_count;
  error_rate = obs.metrics.error_rate;
  memory_pct = obs.metrics.memory_pct;
  cpu_pct = obs.metrics.cpu_pct;
  disk_pct = obs.metrics.disk_pct;
  has_redundant_replica = leb min_redundant_replicas obs.metrics.replicas;
})

unfoldable pub situational_features : Observations → String → Result (Option Situational)
situational_features observations proposed_action =
    map_result
      (λ p.
        if str_eq p.0 "delete_records"
        then none
        else features_of (lookup p.1 observations.services))
      (split_action proposed_action)

abbrev pub is_low : RiskTier → Bool
is_low low = true
is_low medium = false
is_low high = false

abbrev pub is_medium : RiskTier → Bool
is_medium low = false
is_medium medium = true
is_medium high = false

-- `situational is not None and situational.get("has_redundant_replica") is False`
abbrev pub is_sole_instance : Option Situational → Bool
is_sole_instance none = false
is_sole_instance (some s) = not s.has_redundant_replica

abbrev is_repeat : Option Situational → Bool
is_repeat none = false
is_repeat (some s) = leb 1 s.restart_count_this_run

unfoldable pub apply_policy : String → RiskTier → Option Situational → RiskTier
apply_policy tool llm_tier situational =
    if mem_text tool forced_high_tools
    then high
    else if is_low llm_tier && (is_sole_instance situational && is_repeat situational)
    then medium
    else llm_tier
