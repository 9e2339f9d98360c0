-- ===== src/Observations.antt =====
-- src/agent/observations.py and src/env/registry.py: the diagnostic sweep over the known services.
use durable_approval_gated_r.Prelude.{
  String, Bool, true, false, Option, none, some, List, [], ◌∷◌, str_eq, map,
}
use durable_approval_gated_r.Prelude.Dict.{Dict, lookup}
use durable_approval_gated_r.Act.{Act, pure, ◌>>=◌}
use durable_approval_gated_r.Service.{Metrics, LogLine}
use durable_approval_gated_r.App.{HealthReply, DiskReply}
use durable_approval_gated_r.Records.{Row}
use durable_approval_gated_r.World.{World}
use durable_approval_gated_r.Tools.Readonly.{
  get_service_health, read_logs, read_metrics, query_db_readonly, check_disk_usage,
}

abbrev service_roles : Dict String
service_roles = ("service_a", "compute") ∷ ("service_b", "compute") ∷ ("service_c", "disk") ∷ []

abbrev pub known_services : List String
known_services = map (λ p. p.0) service_roles

abbrev is_disk_role : Option String → Bool
is_disk_role none = false
is_disk_role (some role) = str_eq role "disk"

unfoldable pub has_disk : String → Bool
unfolding lookup
has_disk service = is_disk_role (lookup service service_roles)

pub record ServiceObs : Type 0 where
  pub health : HealthReply
  pub metrics : Metrics
  pub logs : List LogLine
  pub disk : Option DiskReply

pub record Observations : Type 0 where
  pub services : Dict ServiceObs
  pub records : List Row

abbrev pub disk_if : Bool → String → Act World (Option DiskReply)
disk_if true service = do disk ← check_disk_usage service; pure (some disk)
disk_if false service = pure none

-- The body of the loop over the services.
unfoldable pub observe : String → Act World ServiceObs
observe service = do
  health ← get_service_health service
  metrics ← read_metrics service
  logs ← read_logs service 10
  disk ← disk_if (has_disk service) service
  pure (record { health = health; metrics = metrics; logs = logs; disk = disk })

unfoldable pub observe_all : List String → Act World (Dict ServiceObs)
unfolding observe
observe_all [] = pure []
observe_all (service ∷ services) = do
  obs ← observe service
  rest ← observe_all services
  pure ((service, obs) ∷ rest)

unfoldable pub gather_observations : Act World Observations
unfolding observe_all
gather_observations = do
  services ← observe_all known_services
  records ← query_db_readonly none 1000
  pure (record { services = services; records = records })
