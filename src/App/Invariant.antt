-- ===== src/App/Invariant.antt =====
-- What holds of a mock service between two requests, over the routes of src/env/mock_service/app.py that
-- change it.
use durable_approval_gated_r.Prelude.{
  ℕ, suc, ◌≤◌, ◌<◌, ◌≡◌, ◌⊎◌, refl, ap, Bool, true, false, Option, none, some, String, List, [],
  ◌∷◌, ◌++◌, arith, length, length-append, any, filter, not, ltb, inl, inr,
}
use durable_approval_gated_r.Act.{ok, Result-cases}
use durable_approval_gated_r.Service.{
  FaultType, FaultRate, ServiceState, Metrics, disk_full, same_fault, last, but_last, metrics,
  new_service, apply_fault, restart, clean_disk, scale, set_config, rollback, deploy, reset,
}
use durable_approval_gated_r.App.{
  post_restart, post_scale, post_config, post_rollback, post_deploy, post_disk_clean, admin_fault,
  admin_reset,
}

-- There is a version to report, every level is a percentage, and only a service with a disk has a disk
-- fault among its active ones.
pub record IsValid (s : ServiceState) : Type 0 where
  pub has_version : 0 < length s.version_history
  pub memory_in_range : s.memory_pct ≤ 100
  pub cpu_in_range : s.cpu_pct ≤ 100
  pub disk_in_range : s.disk_pct ≤ 100
  pub error_in_range : s.error_rate ≤ 100
  pub disk_fault_has_disk :
      (any (same_fault disk_full) s.active_faults ≡ false) ⊎ (s.has_disk ≡ true)

-- The requests that change a service.
pub data Request : Type 0 where
  restart_it clean_it roll_back reset_it : Request
  scale_to : ℕ → Request
  configure : String → Option String → Request
  deploy_it : String → Request
  fault : FaultType → FaultRate → Request

abbrev pub serve : Request → ServiceState → ServiceState
serve restart_it s = (post_restart s).1
serve clean_it s = (post_disk_clean s).1
serve roll_back s = (post_rollback s).1
serve reset_it s = (admin_reset s).1
serve (scale_to n) s = (post_scale n s).1
serve (configure key value) s = (post_config key value s).1
serve (deploy_it version) s = (post_deploy version s).1
serve (fault f rate) s = (admin_fault f rate s).1

any-filter_keep :
    (f : FaultType) (fs : List FaultType)
    → any (same_fault f) (filter (same_fault f) fs) ≡ any (same_fault f) fs
any-filter_keep f [] = refl
any-filter_keep f (g ∷ fs) = ground (arith, any-filter_keep f fs)

any-filter_drop :
    (f : FaultType) (fs : List FaultType)
    → any (same_fault f) (filter (λ g. not (same_fault f g)) fs) ≡ false
any-filter_drop f [] = refl
any-filter_drop f (g ∷ fs) = ground (arith, any-filter_drop f fs)

any-snoc :
    (f g : FaultType) (fs : List FaultType)
    → any (same_fault f) (fs ++ g ∷ []) ≡ true
    → any (same_fault f) fs ≡ false
    → same_fault f g ≡ true
any-snoc f g [] h n = ground arith
any-snoc f g (e ∷ fs) h n = ground (arith, any-snoc f g fs)

length-but_last :
    (v w : String) (vs : List String) → length (but_last (v ∷ w ∷ vs)) ≡ suc (length vs)
length-but_last v w [] = refl
length-but_last v w (u ∷ vs) = ap suc (length-but_last w u vs)

but_last_pos : (vs : List String) → ltb (length vs) 2 ≡ false → 0 < length (but_last vs)
but_last_pos [] h = absurd (ground arith)
but_last_pos (v ∷ []) h = absurd (ground arith)
but_last_pos (v ∷ w ∷ vs) h = omega (arith, length-but_last v w vs)

restart-IsValid : (s : ServiceState) → IsValid s → IsValid (serve restart_it s)
unfolding post_restart restart
restart-IsValid s v = ground (arith, any-filter_keep disk_full s.active_faults)

clean-IsValid : (s : ServiceState) → IsValid s → IsValid (serve clean_it s)
unfolding post_disk_clean clean_disk
clean-IsValid s v = ground (arith, any-filter_drop disk_full s.active_faults)

rollback-IsValid : (s : ServiceState) → IsValid s → IsValid (serve roll_back s)
unfolding post_rollback rollback
rollback-IsValid s v =
    ground (arith, but_last_pos s.version_history, any-filter_keep disk_full s.active_faults)

reset-IsValid : (s : ServiceState) → IsValid s → IsValid (serve reset_it s)
unfolding admin_reset reset
reset-IsValid s v = ground arith

scale-IsValid : (n : ℕ) (s : ServiceState) → IsValid s → IsValid (serve (scale_to n) s)
unfolding post_scale scale
scale-IsValid n s v = ground arith

config-IsValid :
    (key : String) (value : Option String) (s : ServiceState)
    → IsValid s
    → IsValid (serve (configure key value) s)
unfolding post_config set_config
config-IsValid key none s v = v
config-IsValid key (some value) s v = ground arith

deploy-IsValid :
    (version : String) (s : ServiceState) → IsValid s → IsValid (serve (deploy_it version) s)
unfolding post_deploy deploy
deploy-IsValid version s v = ground (arith, length-append s.version_history (version ∷ []))

fault-IsValid :
    (f : FaultType) (rate : FaultRate) (s : ServiceState)
    → IsValid s
    → IsValid (serve (fault f rate) s)
unfolding admin_fault apply_fault
fault-IsValid f rate s v = ground (arith, any-snoc disk_full f s.active_faults)

-- Every request, answered or refused, keeps the invariant.
pub serve-IsValid : (q : Request) (s : ServiceState) → IsValid s → IsValid (serve q s)
serve-IsValid restart_it s v = restart-IsValid s v
serve-IsValid clean_it s v = clean-IsValid s v
serve-IsValid roll_back s v = rollback-IsValid s v
serve-IsValid reset_it s v = reset-IsValid s v
serve-IsValid (scale_to n) s v = scale-IsValid n s v
serve-IsValid (configure key value) s v = config-IsValid key value s v
serve-IsValid (deploy_it version) s v = deploy-IsValid version s v
serve-IsValid (fault f rate) s v = fault-IsValid f rate s v

abbrev pub serve_all : List Request → ServiceState → ServiceState
serve_all [] s = s
serve_all (q ∷ qs) s = serve_all qs (serve q s)

serve_all-IsValid : (qs : List Request) (s : ServiceState) → IsValid s → IsValid (serve_all qs s)
serve_all-IsValid [] s v = v
serve_all-IsValid (q ∷ qs) s v = serve_all-IsValid qs (serve q s) (serve-IsValid q s v)

new_service-IsValid : (name : String) (disk : Bool) (n : ℕ) → IsValid (new_service name disk n)
unfolding new_service
new_service-IsValid name disk n = ground arith

last_total : (vs : List String) → 0 < length vs → (v : String) × (last vs ≡ ok v)
last_total [] h = absurd (omega arith)
last_total (v ∷ []) h = (v, refl)
last_total (v ∷ w ∷ vs) h = last_total (w ∷ vs) (omega arith)

metrics_total :
    (s : ServiceState) → 0 < length s.version_history → (m : Metrics) × (metrics s ≡ ok m)
unfolding metrics
metrics_total s h = elim (Result-cases (metrics s)) [
  | inl found ↦ found
  | inr (x, bad) ↦ ground (arith, last_total s.version_history)
]

-- Whatever requests a new service has served, it satisfies the invariant, and `metrics` reports and does
-- not raise: there is always a deployed version.
pub metrics_after_requests :
    (name : String) (disk : Bool) (n : ℕ) (qs : List Request)
    → IsValid (serve_all qs (new_service name disk n))
      × ((m : Metrics) × (metrics (serve_all qs (new_service name disk n)) ≡ ok m))
metrics_after_requests name disk n qs =
    let valid = serve_all-IsValid qs (new_service name disk n) (new_service-IsValid name disk n) in
    (valid, metrics_total _ valid.has_version)
