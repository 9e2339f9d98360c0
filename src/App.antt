-- ===== src/App.antt =====
-- src/env/mock_service/app.py: the routes of one mock service, as actions on its state. A handler's
-- `ValueError` becomes status 400 where the route catches it; a route that is not there answers 404;
-- a body that its pydantic model refuses answers 422.
pub mod Invariant
pub mod Repair
use durable_approval_gated_r.Prelude.{ℕ, String, Option, none, some, List, if◌then◌else◌}
use durable_approval_gated_r.Prelude.Dict.{Dict}
use durable_approval_gated_r.Act.{
  Error, no_disk_surface, no_prior_version, http_status, Result, ok, raised, Act, pure, gets, ◌>>=◌,
}
use durable_approval_gated_r.Service.{
  FaultType, FaultRate, ServiceState, Status, Metrics, LogLine, status, metrics, logs, restart,
  scale, set_config, deployed_version, rollback, deploy, clean_disk, apply_fault, reset,
}

pub record HealthReply : Type 0 where
  pub service : String
  pub status : Status
  pub restart_count : ℕ

pub record RestartReply : Type 0 where
  pub service : String
  pub restart_count : ℕ
  pub status : Status

pub record ScaleReply : Type 0 where
  pub service : String
  pub previous_replicas : ℕ
  pub replicas : ℕ

pub record ConfigReply : Type 0 where
  pub service : String
  pub key : String
  pub previous_value : Option String
  pub value : String

pub record RollbackReply : Type 0 where
  pub service : String
  pub rolled_back_from : String
  pub deployed_version : String

pub record DeployReply : Type 0 where
  pub service : String
  pub previous_version : String
  pub deployed_version : String

pub record DiskReply : Type 0 where
  pub service : String
  pub used_pct : ℕ

pub record FaultReply : Type 0 where
  pub service : String
  pub status : Status
  pub active_faults : List FaultType

-- `except ValueError as exc: raise HTTPException(status_code=400, ...)`
abbrev catch_value_error : Error → Error
catch_value_error no_disk_surface = http_status 400
catch_value_error no_prior_version = http_status 400
catch_value_error e = e

-- Go on in the state that a method returned, or raise.
abbrev store_or {ℓ} :
    {A : Type ℓ} → (Error → Error) → Result A → (A → ServiceState) → Act ServiceState A
store_or handler (ok a) new s = (ok a, new a)
store_or handler (raised e) new s = (raised (handler e), s)

unfoldable pub get_health : Act ServiceState HealthReply
get_health =
    gets (λ s. record { service = s.name; status = status s; restart_count = s.restart_count })

unfoldable pub get_metrics : Act ServiceState Metrics
get_metrics s = (metrics s, s)

unfoldable pub get_logs : ℕ → Act ServiceState (List LogLine)
get_logs limit = gets (logs limit)

unfoldable pub post_restart : Act ServiceState RestartReply
post_restart s =
    let t = restart s in
    (ok (record { service = t.name; restart_count = t.restart_count; status = status t }), t)

unfoldable pub post_scale : ℕ → Act ServiceState ScaleReply
post_scale replicas s =
    let (previous, t) = scale replicas s in
    (ok (record { service = t.name; previous_replicas = previous; replicas = t.replicas }), t)

unfoldable pub get_config : Act ServiceState (Dict String)
get_config = gets (λ s. s.config)

-- `ConfigRequest.value` is a `str`, so `null` is refused before the handler runs.
unfoldable pub post_config : String → Option String → Act ServiceState ConfigReply
post_config key none s = (raised (http_status 422), s)
post_config key (some value) s =
    let (previous, t) = set_config key value s in
    (ok (record { service = t.name; key = key; previous_value = previous; value = value }), t)

unfoldable pub get_version : Act ServiceState (String × List String)
get_version = do version ← λ s. (deployed_version s, s); gets (λ s. (version, s.version_history))

unfoldable pub post_rollback : Act ServiceState RollbackReply
post_rollback = do
  (previous, current, _) ← λ s. store_or catch_value_error (rollback s) (λ r. r.2) s
  gets (λ s. record { service = s.name; rolled_back_from = previous; deployed_version = current })

unfoldable pub post_deploy : String → Act ServiceState DeployReply
post_deploy version = do
  (previous, _) ← λ s. store_or (λ e. e) (deploy version s) (λ r. r.1) s
  current ← λ s. (deployed_version s, s)
  gets (λ s. record { service = s.name; previous_version = previous; deployed_version = current })

unfoldable pub get_disk : Act ServiceState DiskReply
get_disk s =
    if s.has_disk
    then (ok (record { service = s.name; used_pct = s.disk_pct }), s)
    else (raised (http_status 404), s)

abbrev clean_stored : Act ServiceState ServiceState
clean_stored s = store_or (λ e. e) (clean_disk s) (λ t. t) s

abbrev disk_reply : ServiceState → DiskReply
disk_reply s = record { service = s.name; used_pct = s.disk_pct }

unfoldable pub post_disk_clean : Act ServiceState DiskReply
post_disk_clean s =
    if s.has_disk
    then (do t ← clean_stored; pure (disk_reply t)) s
    else (raised (http_status 404), s)

unfoldable pub admin_fault : FaultType → FaultRate → Act ServiceState FaultReply
admin_fault fault rate = do
  t ← λ s. store_or catch_value_error (apply_fault fault rate s) (λ t. t) s
  pure (record { service = t.name; status = status t; active_faults = t.active_faults })

unfoldable pub admin_reset : Act ServiceState HealthReply
admin_reset s =
    let t = reset s in
    (ok (record { service = t.name; status = status t; restart_count = t.restart_count }), t)
