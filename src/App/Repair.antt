-- ===== src/App/Repair.antt =====
-- What the remedies do to a mock service: restarting, cleaning its disk, rolling back and deploying.
use durable_approval_gated_r.Prelude.{
  ◌<◌, ◌≡◌, ◌≢◌, ◌↔◌, ◌⊎◌, false, refl, ap, String, List, [], ◌∷◌, ◌++◌, arith, eq_iff, eq_refl,
}
use durable_approval_gated_r.Act.{ok}
use durable_approval_gated_r.Service.{
  ServiceState, healthy, degraded_threshold, last, but_last, status, deployed_version, restart,
  clean_disk, rollback, deploy,
}

-- After a restart a service is healthy exactly if it has no disk or its disk is less than 75% full.
restart_heals_iff :
    (s : ServiceState)
    → (status (restart s) ≡ healthy) ↔ ((s.has_disk ≡ false) ⊎ (s.disk_pct < degraded_threshold))
unfolding status restart
restart_heals_iff s = (ground arith, ground arith)

-- A service with a disk is healthy after its disk is cleaned and it is restarted, whatever its faults.
clean_and_restart_heals : (s t : ServiceState) → clean_disk s ≡ ok t → status (restart t) ≡ healthy
unfolding status restart clean_disk
clean_and_restart_heals s t h = ground arith

last-snoc : (vs : List String) (v : String) → last (vs ++ v ∷ []) ≡ ok v
last-snoc [] v = refl
last-snoc (w ∷ []) v = refl
last-snoc (w ∷ u ∷ vs) v = last-snoc (u ∷ vs) v

but_last-last : (vs : List String) (v : String) → last vs ≡ ok v → but_last vs ++ v ∷ [] ≡ vs
but_last-last [] v h = absurd (ground arith)
but_last-last (w ∷ []) v h = ground arith
but_last-last (w ∷ u ∷ vs) v h = ap (λ t. w ∷ t) (but_last-last (u ∷ vs) v h)

-- Deploying a version makes it the current one, and deploying it again changes nothing.
deploy_idempotent :
    (version previous : String) (s t : ServiceState)
    → deploy version s ≡ ok (previous, t)
    → (deployed_version t ≡ ok version) × (deploy version t ≡ ok (version, t))
unfolding deploy
deploy_idempotent version previous s t h =
    ground (arith, last-snoc s.version_history version, eq_iff version previous, eq_refl version)

-- A rollback that is compensated by deploying the version that it left restores the whole version
-- history, if that version differs from the one before it.
pub rollback-deploy :
    (s t u : ServiceState) (left current previous : String)
    → rollback s ≡ ok (left, current, t)
    → left ≢ current
    → deploy left t ≡ ok (previous, u)
    → (u.version_history ≡ s.version_history) × (deployed_version u ≡ ok left)
unfolding rollback deploy
rollback-deploy s t u left current previous h differs g = ground (
  arith,
  but_last-last s.version_history left,
  last-snoc (but_last s.version_history) left,
  eq_iff left current,
)
